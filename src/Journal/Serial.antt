-- ===== src/Journal/Serial.antt =====
-- src/gsrr_slice01/journal.py: an id that `new_id` gives says which one it is.
use Prim.Native.String.{◌++◌ as append}
use gsrr_agent_harness.Prelude.{
  ℕ, String, ◌≡◌, refl, sym, ap, ◌∙◌, concat, decimal, read_from, read_from-append,
  read_from-decimal,
}
use gsrr_agent_harness.Journal.Defs.{id_text}

-- `int(ref.rsplit(":", 1)[1])`
unfoldable pub serial_of : String → ℕ
serial_of s = read_from 0 s

-- Past a colon the number starts again.
read_from-colon : (n : ℕ) (t : String) → read_from n (append ":" t) ≡ read_from 0 t
unfolding read_from
read_from-colon n t = read_from-append n ":" t

-- Whatever the run's id and the kind are, colons and digits in them too, an id ends with its serial, which
-- is read back from it.
pub serial_of-id_text :
    (run_id kind : String) (serial : ℕ) → serial_of (id_text run_id kind serial) ≡ serial
unfolding id_text serial_of concat read_from
serial_of-id_text run_id kind serial =
    rw
      (
        read_from-append 0 run_id,
        read_from-colon,
        read_from-append 0 kind,
        read_from-colon,
        read_from-append 0 (decimal serial),
        read_from-decimal,
      )
      refl

pub id_text_injective :
    (run_id run_id' kind kind' : String) (m n : ℕ)
    → id_text run_id kind m ≡ id_text run_id' kind' n
    → m ≡ n
id_text_injective run_id run_id' kind kind' m n e =
    sym (serial_of-id_text run_id kind m) ∙ ap serial_of e ∙ serial_of-id_text run_id' kind' n
