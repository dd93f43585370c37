-- ===== src/Exec/Keeps.antt =====
-- What a call does to the state, however it ends: one rule for each way to build a call. An order on
-- states is a relation that holds of a state and itself and that composes, such as "grows" or
-- "keeps the invariant".
use gsrr_agent_harness.Prelude.{String, ◌≡◌, refl, Bool, true, false, if◌then◌else◌}
use gsrr_agent_harness.Exec.{
  Error, Result, Exec, pure, raise, gets, except_key, except_retention, except_value, modify,
  raise_if, ◌>>=◌,
}

pub record Order (S : Type 0) : Type 1 where
  pub le : S → S → Type 0
  pub le_refl : (s : S) → le s s
  pub le_trans : (s t u : S) → le s t → le t u → le s u

-- The order of the states that have `P` whenever an earlier one has it.
abbrev pub preserving : {S : Type 0} → (S → Type 0) → Order S
preserving P = record {
  le = λ s t. P s → P t;
  le_refl = λ s h. h;
  le_trans = λ s t u f g h. g (f h);
}

-- Two orders at once.
abbrev pub both : {S : Type 0} → Order S → Order S → Order S
both o q = record {
  le = λ s t. o.le s t × q.le s t;
  le_refl = λ s. (o.le_refl s, q.le_refl s);
  le_trans = λ s t u f g. (o.le_trans s t u f.0 g.0, q.le_trans s t u f.1 g.1);
}

pub record Keeps {S A : Type 0} (o : Order S) (m : Exec S A) : Type 0 where
  pub at : (s : S) → o.le s (m s).1

module _ {S A : Type 0} {o : Order S} where
  pub Keeps-pure : (a : A) → Keeps o (pure a)
  unfolding pure
  Keeps-pure a = record { at = λ s. o.le_refl s }

  pub Keeps-raise : (e : Error) → Keeps o (raise {A = A} e)
  unfolding raise
  Keeps-raise e = record { at = λ s. o.le_refl s }

  pub Keeps-gets : (f : S → A) → Keeps o (gets f)
  unfolding gets
  Keeps-gets f = record { at = λ s. o.le_refl s }

  pub Keeps-except_key : (m : Exec S A) (a : A) → Keeps o m → Keeps o (except_key m a)
  unfolding except_key
  Keeps-except_key m a k = record { at = λ s. k.at s }

  pub Keeps-except_retention : (m : Exec S A) (a : A) → Keeps o m → Keeps o (except_retention m a)
  unfolding except_retention
  Keeps-except_retention m a k = record { at = λ s. k.at s }

  pub Keeps-except_value : (m : Exec S A) (f : String → A) → Keeps o m → Keeps o (except_value m f)
  unfolding except_value
  Keeps-except_value m f k = record { at = λ s. k.at s }

  -- A coarser order.
  pub Keeps-coarse :
      (q : Order S) → ((s t : S) → o.le s t → q.le s t) → (m : Exec S A) → Keeps o m → Keeps q m
  Keeps-coarse q le m k = record { at = λ s. le s (m s).1 (k.at s) }

  pub Keeps-if :
      (b : Bool) (m n : Exec S A)
      → (b ≡ true → Keeps o m)
      → (b ≡ false → Keeps o n)
      → Keeps o (if b then m else n)
  Keeps-if true m n km kn = km refl
  Keeps-if false m n km kn = kn refl

module _ {S A : Type 0} {o q : Order S} where
  pub Keeps-both : (m : Exec S A) → Keeps o m → Keeps q m → Keeps (both o q) m
  Keeps-both m k l = record { at = λ s. (k.at s, l.at s) }

module _ {S : Type 0} {o : Order S} where
  pub Keeps-modify : (f : S → S) → ((s : S) → o.le s (f s)) → Keeps o (modify f)
  unfolding modify
  Keeps-modify f h = record { at = h }

  pub Keeps-raise_if : (b : Bool) (e : Error) → Keeps o (raise_if b e)
  unfolding raise_if
  Keeps-raise_if b e = record { at = λ s. o.le_refl s }

module _ {S A B : Type 0} {o : Order S} where
  continue_lem :
      (r : Result A) (f : A → Exec S B)
      → ((a : A) → Keeps o (f a))
      → Keeps o ((λ (s : S). (r, s)) >>= f)
  unfolding ◌>>=◌
  continue_lem (Result.ok a) f kf = kf a
  continue_lem (Result.err e) f kf = Keeps-raise e

  pub Keeps-bind :
      (m : Exec S A) (f : A → Exec S B) → Keeps o m → ((a : A) → Keeps o (f a)) → Keeps o (m >>= f)
  unfolding ◌>>=◌
  Keeps-bind m f km kf = record {
    at = λ s.
        let (r, t) = m s in o.le_trans s t ((m >>= f) s).1 (km.at s) ((continue_lem r f kf).at t);
  }

  -- What follows a read of the state may use that the state has just been read.
  pub Keeps-gets_bind :
      (f : S → A) (k : A → Exec S B) → ((s : S) → o.le s (k (f s) s).1) → Keeps o (gets f >>= k)
  unfolding ◌>>=◌
  Keeps-gets_bind f k h = record { at = h }

pub ruleset keeps_rules = (
  Keeps-pure, Keeps-raise, Keeps-gets, Keeps-except_key, Keeps-except_retention, Keeps-except_value,
  Keeps-if, Keeps-raise_if, Keeps-bind,
)
