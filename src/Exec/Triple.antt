-- ===== src/Exec/Triple.antt =====
-- Triples: from a state with `P`, a call that returns `a` ends in a state with `Q a`, and one that
-- raises ends in a state with `E`.
use gsrr_agent_harness.Prelude.{◌≡◌, refl, subst, Bool, true, false, if◌then◌else◌}
use gsrr_agent_harness.Exec.{Error, Result, Exec, pure, raise, gets, modify, raise_if, ◌>>=◌}
use gsrr_agent_harness.Exec.Invert.{bind_split}
use gsrr_agent_harness.Exec.Keeps.{preserving, Keeps}

abbrev pub Ends : {S A : Type 0} → (A → S → Type 0) → (S → Type 0) → Result A × S → Type 0
Ends Q E (Result.ok a, t) = Q a t
Ends Q E (Result.err e, t) = E t

pub record Triple {S A : Type 0} (P : S → Type 0) (m : Exec S A) (Q : A → S → Type 0)
    (E : S → Type 0) : Type 0 where
  pub at : (s : S) → P s → Ends Q E (m s)

module _ {S A : Type 0} where
  pub Ends-ok :
      (Q : A → S → Type 0) (E : S → Type 0) (r : Result A × S) {a : A}
      → r.0 ≡ Result.ok a
      → Ends Q E r
      → Q a r.1
  Ends-ok Q E (Result.ok x, t) {a} p h = subst (λ y. Q y t) (ok_injective p) h
    where
      ok_injective : {b : A} → Result.ok x ≡ Result.ok b → x ≡ b
      ok_injective e = cc
  Ends-ok Q E (Result.err x, t) p h = cc

  pub Ends-err :
      (Q : A → S → Type 0) (E : S → Type 0) (r : Result A × S) {x : Error}
      → r.0 ≡ Result.err x
      → Ends Q E r
      → E r.1
  Ends-err Q E (Result.ok a, t) p h = cc
  Ends-err Q E (Result.err x, t) p h = h

  pub Triple-pure : {Q : A → S → Type 0} {E : S → Type 0} (a : A) → Triple (Q a) (pure a) Q E
  unfolding pure
  Triple-pure a = record { at = λ s h. h }

  pub Triple-raise :
      {Q : A → S → Type 0} {E : S → Type 0} (e : Error) → Triple E (raise {A = A} e) Q E
  unfolding raise
  Triple-raise e = record { at = λ s h. h }

  pub Triple-gets :
      {P : S → Type 0} {E : S → Type 0} (f : S → A) → Triple P (gets f) (λ a s. P s × (a ≡ f s)) E
  unfolding gets
  Triple-gets f = record { at = λ s h. (h, refl) }

  -- A call that keeps an invariant, as a triple.
  pub Triple-keeps :
      {P : S → Type 0} (m : Exec S A) → Keeps (preserving P) m → Triple P m (λ a s. P s) P
  Triple-keeps {P} m k = record { at = λ s h. ends (m s) (k.at s h) }
    where
      ends : (r : Result A × S) → P r.1 → Ends (λ a s. P s) P r
      ends (Result.ok a, t) h = h
      ends (Result.err e, t) h = h

  -- However it ends.
  pub Ends-either : (Q : S → Type 0) (r : Result A × S) → Ends (λ a. Q) Q r → Q r.1
  Ends-either Q (Result.ok a, t) h = h
  Ends-either Q (Result.err e, t) h = h

  -- And back.
  pub Keeps-triple :
      {P : S → Type 0} (m : Exec S A) → Triple P m (λ a s. P s) P → Keeps (preserving P) m
  Keeps-triple {P} m k = record { at = λ s h. Ends-either P (m s) (k.at s h) }

  pub Triple-weaken :
      {P P' : S → Type 0} {Q Q' : A → S → Type 0} {E E' : S → Type 0} (m : Exec S A)
      → ((s : S) → P' s → P s)
      → ((a : A) (s : S) → Q a s → Q' a s)
      → ((s : S) → E s → E' s)
      → Triple P m Q E
      → Triple P' m Q' E'
  Triple-weaken {Q = Q} {Q' = Q'} {E = E} {E' = E'} m p q e k = record {
    at = λ s h. ends (m s) (k.at s (p s h));
  }
    where
      ends : (r : Result A × S) → Ends Q E r → Ends Q' E' r
      ends (Result.ok a, t) h = q a t h
      ends (Result.err x, t) h = e t h

  -- From fewer states.
  pub Triple-pre :
      {P P' : S → Type 0} {Q : A → S → Type 0} {E : S → Type 0} (m : Exec S A)
      → ((s : S) → P' s → P s)
      → Triple P m Q E
      → Triple P' m Q E
  Triple-pre m p k = record { at = λ s h. k.at s (p s h) }

  -- What is given beside the state.
  pub Triple-given :
      {P : S → Type 0} {Q : A → S → Type 0} {E : S → Type 0} {R : Type 0} {m : Exec S A}
      → (R → Triple P m Q E)
      → Triple (λ s. P s × R) m Q E
  Triple-given k = record { at = λ s h. (k h.1).at s h.0 }

  -- Two of them at once.
  pub Triple-both :
      {P P' : S → Type 0} {Q Q' : A → S → Type 0} {E E' : S → Type 0} (m : Exec S A)
      → Triple P m Q E
      → Triple P' m Q' E'
      → Triple (λ s. P s × P' s) m (λ a s. Q a s × Q' a s) (λ s. E s × E' s)
  Triple-both {Q = Q} {Q' = Q'} {E = E} {E' = E'} m k l = record {
    at = λ s h. ends (m s) (k.at s h.0) (l.at s h.1);
  }
    where
      ends :
          (r : Result A × S)
          → Ends Q E r
          → Ends Q' E' r
          → Ends (λ a s. Q a s × Q' a s) (λ s. E s × E' s) r
      ends (Result.ok a, t) h g = (h, g)
      ends (Result.err x, t) h g = (h, g)

  pub Triple-if :
      {P : S → Type 0} {Q : A → S → Type 0} {E : S → Type 0} (b : Bool) (m n : Exec S A)
      → (b ≡ true → Triple P m Q E)
      → (b ≡ false → Triple P n Q E)
      → Triple P (if b then m else n) Q E
  Triple-if true m n km kn = km refl
  Triple-if false m n km kn = kn refl

module _ {S : Type 0} {P : S → Type 0} {E : S → Type 0} where
  pub Triple-modify :
      {Q : Unit {0} → S → Type 0} (f : S → S)
      → ((s : S) → P s → Q tt (f s))
      → Triple P (modify f) Q E
  unfolding modify
  Triple-modify f h = record { at = h }

  pub Triple-raise_if :
      (b : Bool) (e : Error)
      → ((s : S) → P s → E s)
      → Triple P (raise_if b e) (λ u s. P s × (b ≡ false)) E
  unfolding raise_if
  Triple-raise_if true e h = record { at = h }
  Triple-raise_if false e h = record { at = λ s p. (p, refl) }

  -- The same, where the test's answer is what the exception is about.
  pub Triple-raise_when :
      (b : Bool) (e : Error)
      → (b ≡ true → (s : S) → P s → E s)
      → Triple P (raise_if b e) (λ u s. P s × (b ≡ false)) E
  unfolding raise_if
  Triple-raise_when true e h = record { at = h refl }
  Triple-raise_when false e h = record { at = λ s p. (p, refl) }

module _ {S A B : Type 0} where
  pub Triple-bind :
      {P : S → Type 0} {R : A → S → Type 0} {Q : B → S → Type 0} {E : S → Type 0} (m : Exec S A)
      (f : A → Exec S B)
      → Triple P m R E
      → ((a : A) → Triple (R a) (f a) Q E)
      → Triple P (m >>= f) Q E
  Triple-bind {R = R} {Q = Q} {E = E} m f km kf = record {
    at = λ s p.
        bind_split (Ends Q E) m f s
          (λ a returned. (kf a).at (m s).1 (Ends-ok R E (m s) returned (km.at s p)))
          (λ x raised. Ends-err R E (m s) raised (km.at s p));
  }
