-- ===== src/Shared.antt =====
-- The run's journal is one object that the supervisor, the provider and the runtime all hold. Here a
-- component's methods run on its own state beside that journal.
use gsrr_agent_harness.Exec.{Exec, gets, modify}
use gsrr_agent_harness.Prelude.{◌≡◌, refl}
use gsrr_agent_harness.Exec.Triple.{Triple, Triple-weaken, Triple-keeps}
use gsrr_agent_harness.Exec.Keeps.{Order, preserving, Keeps}
use gsrr_agent_harness.Journal.Defs.{Journal}

pub record Shared (S : Type 0) : Type 0 where
  pub journal : Journal
  pub own : S

module _ {S A : Type 0} where
  -- A call of the journal's method.
  unfoldable pub in_journal : Exec Journal A → Exec (Shared S) A
  in_journal m s = let (r, j) = m s.journal in (r, record s { journal = j })

  unfoldable pub own_gets : (S → A) → Exec (Shared S) A
  unfolding gets
  own_gets f = gets (λ s. f s.own)

module _ {S : Type 0} where
  unfoldable pub own_modify : (S → S) → Exec (Shared S) (Unit {0})
  unfolding modify
  own_modify f = modify (λ s. record s { own = f s.own })

-- The order of the shared states whose journals are in an order.
abbrev pub journal_order : {S : Type 0} → Order Journal → Order (Shared S)
journal_order o = record {
  le = λ s t. o.le s.journal t.journal;
  le_refl = λ s. o.le_refl s.journal;
  le_trans = λ s t u. o.le_trans s.journal t.journal u.journal;
}

module _ {S A : Type 0} where
  pub in_journal-journal :
      (o : Order Journal) (m : Exec Journal A)
      → Keeps o m
      → Keeps (journal_order {S = S} o) (in_journal m)
  unfolding in_journal
  in_journal-journal o m k = record { at = λ s. k.at s.journal }

  -- What is said of the component's own state outlasts a call of the journal.
  pub in_journal-own :
      (P : S → Type 0) (m : Exec Journal A)
      → Keeps (preserving (λ s. P s.own)) (in_journal {S = S} m)
  unfolding in_journal
  in_journal-own P m = record { at = λ s h. h }

module _ {S : Type 0} where
  pub own_modify-own :
      (P : S → Type 0) (f : S → S)
      → ((s : S) → P s → P (f s))
      → Keeps (preserving (λ (s : Shared S). P s.own)) (own_modify f)
  unfolding own_modify modify
  own_modify-own P f h = record { at = λ s. h s.own }

  pub own_modify-journal : (o : Order Journal) (f : S → S) → Keeps (journal_order o) (own_modify f)
  unfolding own_modify modify
  own_modify-journal o f = record { at = λ s. o.le_refl s.journal }

module _ {S A : Type 0} where
  -- A call that keeps what is said of the component's state, as a triple.
  pub frame :
      (P E : S → Type 0) (m : Exec (Shared S) A)
      → Keeps (preserving (λ s. P s.own)) m
      → ((s : S) → P s → E s)
      → Triple (λ s. P s.own) m (λ a s. P s.own) (λ s. E s.own)
  frame P E m k e = Triple-weaken m (λ s h. h) (λ a s h. h) (λ s h. e s.own h) (Triple-keeps m k)

  pub read :
      (P E : S → Type 0) (f : S → A)
      → Triple
          (λ (s : Shared S). P s.own)
          (own_gets f)
          (λ a s. P s.own × (a ≡ f s.own))
          (λ s. E s.own)
  unfolding own_gets gets
  read P E f = record { at = λ s h. (h, refl) }

module _ {S : Type 0} where
  pub write :
      (P E Q : S → Type 0) (f : S → S)
      → ((s : S) → P s → Q (f s))
      → Triple (λ (s : Shared S). P s.own) (own_modify f) (λ u s. Q s.own) (λ s. E s.own)
  unfolding own_modify modify
  write P E Q f h = record { at = λ s p. h s.own p }
