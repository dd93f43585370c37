-- ===== src/Exec/Invert.antt =====
-- Two calls in a row, taken apart by how the first one ended.
use gsrr_agent_harness.Prelude.{◌≡◌, refl}
use gsrr_agent_harness.Exec.{Error, Result, Exec, continue, ◌>>=◌}

module _ {S A B : Type 0} where
  invert :
      (r : Result A) (u : S) (f : A → Exec S B) {b : B} {t : S}
      → ((λ (s : S). (r, s)) >>= f) u ≡ (Result.ok b, t)
      → (a : A) × (r ≡ Result.ok a) × (f a u ≡ (Result.ok b, t))
  unfolding ◌>>=◌
  invert (Result.ok a) u f h = (a, refl, h)
  invert (Result.err e) u f h = cc

  -- A call that returned ran its first part to the end, and went on from the state that part left.
  pub >>=-eq-ok :
      (m : Exec S A) (f : A → Exec S B) (s : S) {b : B} {t : S}
      → (m >>= f) s ≡ (Result.ok b, t)
      → (a : A) × ((m s).0 ≡ Result.ok a) × (f a (m s).1 ≡ (Result.ok b, t))
  unfolding ◌>>=◌
  >>=-eq-ok m f s h = invert (m s).0 (m s).1 f h

  -- What holds at the end of both calls: on the path where the first returned, and where it raised.
  pub bind_split :
      (Q : Result B × S → Type 0) (m : Exec S A) (f : A → Exec S B) (s : S)
      → ((a : A) → (m s).0 ≡ Result.ok a → Q (f a (m s).1))
      → ((e : Error) → (m s).0 ≡ Result.err e → Q (Result.err e, (m s).1))
      → Q ((m >>= f) s)
  unfolding ◌>>=◌
  bind_split Q m f s returned raised = go (m s).0 refl
    where
      go : (r : Result A) → (m s).0 ≡ r → Q (continue (m s).0 f (m s).1)
      go (Result.ok a) e = rw e (returned a e)
      go (Result.err x) e = rw e (raised x e)
