-- ===== src/Retry/Scheduled.antt =====
-- src/gsrr_slice01/retry.py: what has been scheduled was scheduled for an attempt before the current one.
use gsrr_agent_harness.Prelude.{
  ℕ, suc, ◌≤◌, String, ◌≡◌, refl, sym, ap, subst, Bool, true, false, Option, none, some, List, [],
  ◌∷◌, ◌==◌, string_eq, text_eq, arith, All, if◌then◌else◌,
}
use gsrr_agent_harness.Exec.{Exec}
use gsrr_agent_harness.Exec.Keeps.{Order, both, Keeps, Keeps-both}
use gsrr_agent_harness.Shared.{Shared, journal_order}
use gsrr_agent_harness.Contracts.Attempts.{Attempt}
use gsrr_agent_harness.Journal.Growth.{history-Basic}
use gsrr_agent_harness.Journal.History.{history}
use gsrr_agent_harness.Journal.Serial.{serial_of}
use gsrr_agent_harness.Journal.Sharing.{JournaledIn}
use gsrr_agent_harness.Retry.Defs.{Supervisor}
use gsrr_agent_harness.Retry.Lifecycle.{find, put}
use gsrr_agent_harness.Retry.Lined.{last_id, lined}

-- The number of an id, 0 where there is none.
abbrev pub top : Option String → ℕ
top none = 0
top (some ref) = serial_of ref

abbrev pub Keyed : ℕ → List (String × Attempt) → Type 0
Keyed n = All (λ e. suc (serial_of e.0) ≤ n)

pub record IsScheduled (s : Shared Supervisor) : Type 0 where
  pub keys : Keyed (top (last_id s.own)) s.own.schedules
  pub serials : top (last_id s.own) ≤ s.journal.serial

-- What a method does that neither makes an attempt nor schedules one.
abbrev pub progress : Order (Shared Supervisor)
progress = both lined (journal_order history)

pub progresses :
    {A : Type 0} (m : Exec (Shared Supervisor) A) → Keeps lined m → JournaledIn m → Keeps progress m
progresses m line journal = Keeps-both m line (journal history history-Basic)

pub IsScheduled-progress :
    (s t : Shared Supervisor) → progress.le s t → IsScheduled s → IsScheduled t
IsScheduled-progress s t le h = record {
  keys =
      subst (λ xs. Keyed (top (last_id t.own)) xs) (sym le.0.schedules)
        (subst (λ i. Keyed (top i) s.own.schedules) (sym le.0.last_same) h.keys);
  serials = bound (ap top le.0.last_same) h.serials le.1.serials;
}
  where
    bound : {a b c d : ℕ} → b ≡ a → a ≤ c → c ≤ d → b ≤ d
    bound e f g = omega arith

pub Keyed-mono : (m n : ℕ) (xs : List (String × Attempt)) → m ≤ n → Keyed m xs → Keyed n xs
Keyed-mono m n [] le h = tt
Keyed-mono m n ((key, a) ∷ xs) le h = (omega arith, Keyed-mono m n xs le h.1)

placed :
    (n : ℕ) (key j : String) (a b : Attempt) (xs ys : List (String × Attempt)) (same : Bool)
    → suc (serial_of key) ≤ n
    → Keyed n ((j, b) ∷ xs)
    → Keyed n ys
    → Keyed n (if same then (key, a) ∷ xs else (j, b) ∷ ys)
placed n key j a b xs ys true le h k = (le, h.1)
placed n key j a b xs ys false le h k = (h.0, k)

pub Keyed-put :
    (n : ℕ) (key : String) (a : Attempt) (xs : List (String × Attempt))
    → suc (serial_of key) ≤ n
    → Keyed n xs
    → Keyed n (put key a xs)
unfolding put
Keyed-put n key a [] le h = (le, tt)
Keyed-put n key a ((j, b) ∷ xs) le h =
    placed n key j a b xs (put key a xs) (j == key) le h (Keyed-put n key a xs le h.1)

apart : {a b n : ℕ} → a ≡ b → b ≡ n → suc a ≤ n → ⊥
apart p e le = omega arith

missed :
    (n : ℕ) (key j : String) (b : Attempt) (rest : Option Attempt) (same : Bool)
    → j == key ≡ same
    → serial_of key ≡ n
    → suc (serial_of j) ≤ n
    → rest ≡ none
    → (if same then some b else rest) ≡ none
missed n key j b rest true p e le h = absurd (apart (ap serial_of (text_eq j key p)) e le)
missed n key j b rest false p e le h = h

-- Nothing has been scheduled for the current attempt.
pub find-none :
    (n : ℕ) (key : String) (xs : List (String × Attempt))
    → serial_of key ≡ n
    → Keyed n xs
    → find key xs ≡ none
unfolding find
find-none n key [] e h = refl
find-none n key ((j, b) ∷ xs) e h =
    missed n key j b (find key xs) (j == key) refl e h.0 (find-none n key xs e h.1)
