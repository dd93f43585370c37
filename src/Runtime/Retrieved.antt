-- ===== src/Runtime/Retrieved.antt =====
-- src/gsrr_slice01/runtime.py: what `finish_index` retains is what `lookup` retrieves.
use gsrr_agent_harness.Prelude.{
  String, ◌≡◌, refl, sym, ap, ◌∙◌, subst, Option, none, some, string_eq,
}
use gsrr_agent_harness.Exec.{Result, raise, pure, ◌>>=◌, ◌>>◌, modify}
use gsrr_agent_harness.Shared.{Shared, own_gets, own_modify}
use gsrr_agent_harness.Contracts.Plans.{RealizationCommit}
use gsrr_agent_harness.Retry.Lifecycle.{find, put}
use gsrr_agent_harness.Retry.Retrieval.{find-put}
use gsrr_agent_harness.Runtime.Defs.{
  Request, request_eq, RunResult, Binding, RetainedRequest, Runtime, get_run, set_run,
}
use gsrr_agent_harness.Runtime.Dispatch.{
  entry_of, index_at, lookup_entry, lookup, finish_commit, finish_index,
}

-- Of an entry with a result, to its own request.
kept_entry :
    (entry : RetainedRequest) (kept : RunResult) (commit : Option RealizationCommit)
    → lookup_entry entry.request none (record entry { result = some kept }) commit
      ≡ record kept { disposition = "HISTORICAL_RETRIEVAL" }
unfolding lookup_entry
kept_entry entry kept commit = rw ((request_eq.same_iff entry.request entry.request).1 refl) refl

-- A lookup of an entry that is there.
found_entry :
    (key : String) (request : Request) (given : Option Binding) (s : Shared Runtime)
    {entry : RetainedRequest}
    → find key s.own.run.index ≡ some entry
    → (lookup key request given s).0 ≡ Result.ok (lookup_entry request given entry s.own.run.commit)
unfolding lookup index_at get_run own_gets entry_of raise pure ◌>>=◌
found_entry key request given s {entry} e =
    subst
      (λ (o : Option RetainedRequest).
        ((entry_of key o >>= λ x. get_run (λ r. lookup_entry request given x r.commit)) s).0
        ≡ Result.ok (lookup_entry request given entry s.own.run.commit))
      (sym e) refl

-- The state with a result in the entry of a key.
abbrev stored : String → RetainedRequest → RunResult → Shared Runtime → Shared Runtime
stored key entry kept s = record s {
  own = record s.own {
    run = record s.own.run {
      index = put key (record entry { result = some kept }) s.own.run.index;
    };
  };
}

finish_commit-stored :
    (kept : RunResult) (c : RealizationCommit) (s : Shared Runtime) {entry : RetainedRequest}
    → find c.idempotency_key s.own.run.index ≡ some entry
    → (finish_commit kept (some c) s).1 ≡ stored c.idempotency_key entry kept s
unfolding finish_commit index_at get_run own_gets entry_of raise pure set_run own_modify modify
    ◌>>=◌
finish_commit-stored kept c s {entry} e =
    subst
      (λ (o : Option RetainedRequest).
        ((entry_of c.idempotency_key o >>= λ entry.
        set_run (λ r. record r {
          index = put c.idempotency_key (record entry { result = some kept }) r.index;
        })
        >> pure kept)
          s).1
        ≡ stored c.idempotency_key entry kept s)
      (sym e) refl

finish_index-stored :
    (kept : RunResult) (s : Shared Runtime) {c : RealizationCommit} {entry : RetainedRequest}
    → s.own.run.commit ≡ some c
    → find c.idempotency_key s.own.run.index ≡ some entry
    → (finish_index kept s).1 ≡ stored c.idempotency_key entry kept s
unfolding finish_index get_run own_gets ◌>>=◌
finish_index-stored kept s {c} {entry} e found =
    subst
      (λ (o : Option RealizationCommit).
        (finish_commit kept o s).1 ≡ stored c.idempotency_key entry kept s)
      (sym e) (finish_commit-stored kept c s found)

-- In any state with a commit whose idempotency key is in the index: after `finish_index` of a result, a
-- `lookup` of that key for the request that was retained under it gives that result back, every part of
-- it as it was but the disposition, which is HISTORICAL_RETRIEVAL.
pub finish_index-lookup :
    (kept : RunResult) (s : Shared Runtime) {c : RealizationCommit} {entry : RetainedRequest}
    → s.own.run.commit ≡ some c
    → find c.idempotency_key s.own.run.index ≡ some entry
    → (lookup c.idempotency_key entry.request none (finish_index kept s).1).0
      ≡ Result.ok (record kept { disposition = "HISTORICAL_RETRIEVAL" })
finish_index-lookup kept s {c} {entry} e found =
    let key = c.idempotency_key in
    let t = stored key entry kept s in
    ap (λ u. (lookup key entry.request none u).0) (finish_index-stored kept s e found)
    ∙ found_entry key entry.request none t
        (find-put key (record entry { result = some kept }) s.own.run.index)
    ∙ ap Result.ok (kept_entry entry kept t.own.run.commit)
