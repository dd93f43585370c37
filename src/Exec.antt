-- ===== src/Exec.antt =====
-- A call of a method: state and exceptions. What was written before a raise stays written, so the
-- state comes back beside the error too.
pub mod Keeps
pub mod Invert
pub mod Triple
use gsrr_agent_harness.Prelude.{String, Bool, if◌then◌else◌}

-- RetentionError of src/gsrr_slice01/journal.py and the exceptions of Python itself.
pub data Error : Type 0 where
  retention_error key_error value_error attribute_error index_error type_error : String → Error

pub data Result (A : Type 0) : Type 0 where
  ok : A → Result A
  err : Error → Result A

abbrev pub Exec : Type 0 → Type 0 → Type 0
Exec S A = S → Result A × S

abbrev pub recover : {A : Type 0} → A → Result A → Result A
recover a (Result.err (Error.key_error k)) = Result.ok a
recover a r = r

abbrev recover_retention : {A : Type 0} → A → Result A → Result A
recover_retention a (Result.err (Error.retention_error why)) = Result.ok a
recover_retention a r = r

abbrev recover_value : {A : Type 0} → (String → A) → Result A → Result A
recover_value f (Result.err (Error.value_error why)) = Result.ok (f why)
recover_value f r = r

module _ {S A : Type 0} where
  unfoldable pub pure : A → Exec S A
  pure a s = (Result.ok a, s)

  unfoldable pub raise : Error → Exec S A
  raise e s = (Result.err e, s)

  unfoldable pub gets : (S → A) → Exec S A
  gets f s = (Result.ok (f s), s)

  -- `try: ... except KeyError: a`
  unfoldable pub except_key : Exec S A → A → Exec S A
  except_key m a s = let (r, s') = m s in (recover a r, s')

  -- `try: ... except RetentionError: a`
  unfoldable pub except_retention : Exec S A → A → Exec S A
  except_retention m a s = let (r, s') = m s in (recover_retention a r, s')

  -- `try: ... except ValueError as exc: f str(exc)`
  unfoldable pub except_value : Exec S A → (String → A) → Exec S A
  except_value m f s = let (r, s') = m s in (recover_value f r, s')

module _ {S : Type 0} where
  unfoldable pub modify : (S → S) → Exec S (Unit {0})
  modify f s = (Result.ok tt, f s)

  unfoldable pub raise_if : Bool → Error → Exec S (Unit {0})
  raise_if b e s = (if b then Result.err e else Result.ok tt, s)

module _ {S A B : Type 0} where
  abbrev pub continue : Result A → (A → Exec S B) → Exec S B
  continue (Result.ok a) f s = f a s
  continue (Result.err e) f s = (Result.err e, s)

  infixl 10 ◌>>=◌ ◌>>◌
  -- Opening this opens every way to build a call.
  unfoldable pub ◌>>=◌ : Exec S A → (A → Exec S B) → Exec S B
  unfolding pure raise gets except_key except_retention except_value modify raise_if
  ◌>>=◌ m f s = let (r, s') = m s in continue r f s'

  abbrev pub ◌>>◌ : Exec S A → Exec S B → Exec S B
  m >> n = m >>= λ _. n
