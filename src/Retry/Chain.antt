-- ===== src/Retry/Chain.antt =====
-- src/gsrr_slice01/retry.py: the chain of attempts, under the changes that the supervisor makes to it.
use gsrr_agent_harness.Prelude.{
  ℕ, suc, ◌+◌, String, ◌≡◌, refl, ap, true, Option, some, List, [], ◌∷◌, ◌++◌, arith, length, last,
}
use gsrr_agent_harness.Contracts.Attempts.{Attempt}
use gsrr_agent_harness.Retry.Lifecycle.{replace_last}

-- An attempt that has a successor is terminal.
abbrev pub ClosedBefore : Attempt → List Attempt → Type 0
ClosedBefore a [] = Unit
ClosedBefore a (x ∷ xs) = a.terminal ≡ true

-- The attempts are numbered from `n + 1` on, each names the one before it, and all but the last are
-- terminal.
abbrev pub Chained : Option String → ℕ → List Attempt → Type 0
Chained prior n [] = Unit
Chained prior n (a ∷ xs) =
    (a.attempt_number ≡ n + 1)
    × (a.prior_attempt_id ≡ prior)
    × ClosedBefore a xs
    × Chained (some a.attempt_id) (n + 1) xs

ClosedBefore-replace_last :
    (x b y : Attempt) (r : List Attempt)
    → x.terminal ≡ true
    → ClosedBefore x (replace_last b (y ∷ r))
ClosedBefore-replace_last x b y [] h = h
ClosedBefore-replace_last x b y (z ∷ r) h = h

-- The last attempt may give way to one with its identity, number and predecessor.
pub Chained-replace_last :
    (prior : Option String) (n : ℕ) (xs : List Attempt) (a b : Attempt)
    → last xs ≡ some a
    → b.attempt_number ≡ a.attempt_number
    → b.prior_attempt_id ≡ a.prior_attempt_id
    → Chained prior n xs
    → Chained prior n (replace_last b xs)
Chained-replace_last prior n [] a b e q p h = cc
Chained-replace_last prior n (x ∷ []) a b e q p h =
    let same : x ≡ a = cc in
    (
      cc (q, ap (λ (t : Attempt). t.attempt_number) same, h.0),
      cc (p, ap (λ (t : Attempt). t.prior_attempt_id) same, h.1),
      tt,
      tt,
    )
Chained-replace_last prior n (x ∷ y ∷ r) a b e q p h = (
  h.0,
  h.1,
  ClosedBefore-replace_last x b y r h.2,
  Chained-replace_last (some x.attempt_id) (n + 1) (y ∷ r) a b e q p h.3,
)

-- A terminal last attempt may be followed by one that names it and has the next number.
pub Chained-append :
    (prior : Option String) (n : ℕ) (xs : List Attempt) (a b : Attempt)
    → last xs ≡ some a
    → a.terminal ≡ true
    → b.attempt_number ≡ n + length xs + 1
    → b.prior_attempt_id ≡ some a.attempt_id
    → Chained prior n xs
    → Chained prior n (xs ++ b ∷ [])
Chained-append prior n [] a b e t q p h = cc
Chained-append prior n (x ∷ []) a b e t q p h =
    let same : x ≡ a = cc in
    (
      h.0,
      h.1,
      cc (t, ap (λ (u : Attempt). u.terminal) same),
      (omega arith, cc (p, ap (λ (u : Attempt). u.attempt_id) same), tt, tt),
    )
Chained-append prior n (x ∷ y ∷ r) a b e t q p h =
    (h.0, h.1, h.2, Chained-append (some x.attempt_id) (n + 1) (y ∷ r) a b e t (omega arith) p h.3)

pub length-replace_last :
    (xs : List Attempt) (a b : Attempt) → last xs ≡ some a → length (replace_last b xs) ≡ length xs
length-replace_last [] a b e = cc
length-replace_last (x ∷ []) a b e = refl
length-replace_last (x ∷ y ∷ r) a b e = ap suc (length-replace_last (y ∷ r) a b e)
