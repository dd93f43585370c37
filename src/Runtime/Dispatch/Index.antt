-- ===== src/Runtime/Dispatch/Index.antt =====
-- src/gsrr_slice01/runtime.py: the index of the runs, `lookup` and `finish_index`.
use gsrr_agent_harness.Prelude.{
  String, Bool, false, not, ◌||◌, Option, none, some, ◌==◌, string_eq, if◌then◌else◌,
}
use gsrr_agent_harness.Exec.{Error, pure, raise, ◌>>=◌, ◌>>◌}
use gsrr_agent_harness.Contracts.Enums.{Control}
use gsrr_agent_harness.Contracts.Plans.{RealizationCommit}
use gsrr_agent_harness.Retry.Lifecycle.{find, put}
use gsrr_agent_harness.Runtime.Defs.{
  Request, request_eq, RunResult, Binding, binding_eq, RetainedRequest, Call, get_run, set_run,
}

-- A result that carries nothing of the run.
abbrev pub bare_result : String → Control → RunResult
bare_result disposition control = record {
  disposition = disposition;
  control = control;
  commit = none;
  execution = none;
  reconciliation = none;
  projection = none;
}

-- `self.index[key]`
unfoldable pub entry_of : String → Option RetainedRequest → Call RetainedRequest
entry_of key none = raise (Error.key_error key)
entry_of key (some entry) = pure entry

unfoldable pub index_at : String → Call RetainedRequest
index_at key = do found ← get_run (λ r. find key r.index); entry_of key found

abbrev pub other_binding : Option Binding → Binding → Bool
other_binding none b = false
other_binding (some given) b = not (given == b)

-- What is retrieved of an entry, the run's commit beside it.
abbrev pub retrieved : RetainedRequest → Option RealizationCommit → RunResult
retrieved entry commit = elim entry.result [
  | none ↦ record (bare_result "HISTORICAL_INCOMPLETE" Control.hold_ambiguous) { commit = commit }
  | some kept ↦ record kept { disposition = "HISTORICAL_RETRIEVAL" }
]

unfoldable pub lookup_entry :
    Request → Option Binding → RetainedRequest → Option RealizationCommit → RunResult
lookup_entry request given entry commit =
    if not (request == entry.request) || other_binding given entry.binding
    then bare_result "REFUSED_DUPLICATE" Control.fail_nonretryable
    else retrieved entry commit

unfoldable pub lookup : String → Request → Option Binding → Call RunResult
lookup key request given = do
  entry ← index_at key
  get_run (λ r. lookup_entry request given entry r.commit)

-- What `finish_index` puts in the index for a commit.
unfoldable pub finish_commit : RunResult → Option RealizationCommit → Call RunResult
finish_commit kept none = pure kept
finish_commit kept (some c) = do
  entry ← index_at c.idempotency_key
  set_run (λ r. record r {
    index = put c.idempotency_key (record entry { result = some kept }) r.index;
  })
  pure kept

unfoldable pub finish_index : RunResult → Call RunResult
finish_index kept = do commit ← get_run (λ r. r.commit); finish_commit kept commit
