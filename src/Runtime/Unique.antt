-- ===== src/Runtime/Unique.antt =====
-- src/gsrr_slice01/journal.py, under the runtime's calls: an id is given once.
use gsrr_agent_harness.Prelude.{ℕ, ◌+◌, ◌≤◌, String, ◌≡◌, ◌≢◌, List, arith}
use gsrr_agent_harness.Exec.{Result}
use gsrr_agent_harness.Shared.{Shared, in_journal, journal_order}
use gsrr_agent_harness.Journal.Defs.{new_id, id_text}
use gsrr_agent_harness.Journal.History.{history}
use gsrr_agent_harness.Journal.Serial.{id_text_injective}
use gsrr_agent_harness.Runtime.Defs.{Runtime}
use gsrr_agent_harness.Runtime.Calls.{Method, calls, calls_keep}
use gsrr_agent_harness.Runtime.Always.{history-Stable, history-Pivotal}

apart :
    (run_id run_id' kind kind' : String) (m n : ℕ)
    → m + 1 ≤ n
    → Result.ok (id_text run_id' kind' (n + 1)) ≢ Result.ok (id_text run_id kind (m + 1))
apart run_id run_id' kind kind' m n le e =
    let same = id_text_injective run_id' run_id kind' kind (n + 1) (m + 1) (returned e) in
    absurd (omega arith)
  where
    returned : {x y : String} → Result.ok x ≡ Result.ok y → x ≡ y
    returned e = cc

-- In any state, of an id of any kind, and of what is then called, in any order, with any arguments, and
-- however the calls end: no id of any kind that the journal gives afterwards is that id.
pub new_id-fresh :
    (s : Shared Runtime) (kind kind' : String) (ms : List Method)
    → (in_journal (new_id kind') (calls ms (in_journal (new_id kind) s).1)).0
      ≢ (in_journal (new_id kind) s).0
unfolding in_journal new_id
new_id-fresh s kind kind' ms =
    let t = (in_journal (new_id kind) s).1 in
    let later = calls_keep (journal_order history) history-Stable history-Pivotal ms t in
    apart s.journal.run_id (calls ms t).journal.run_id kind kind' s.journal.serial
      (calls ms t).journal.serial later.serials
