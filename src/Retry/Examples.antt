-- ===== src/Retry/Examples.antt =====
-- Concrete supervisors: a run that fails once and is retried once, and the theorem on call sequences.
use gsrr_agent_harness.Prelude.{some, List, [], ◌∷◌, true, false}
use gsrr_agent_harness.Contracts.Enums.{Mode, Control}
use gsrr_agent_harness.Contracts.Record.{Record}
use gsrr_agent_harness.Journal.Defs.{Journal, new_journal}
use gsrr_agent_harness.Samples.{retry_once, approval, envelope}
use gsrr_agent_harness.Retry.Defs.{new_supervisor}
use gsrr_agent_harness.Retry.Invariant.{IsScope}
use gsrr_agent_harness.Retry.Calls.{Method, calls, calls-IsScope}
use gsrr_agent_harness.Prelude.{◌≡◌, refl, decide, none}
use gsrr_agent_harness.Exec.{Result, ◌>>=◌}
use gsrr_agent_harness.Shared.{Shared, in_journal, own_gets, own_modify}
use gsrr_agent_harness.Contracts.Domain.{RetryPolicy-discrete}
use gsrr_agent_harness.Contracts.Defaults.{valid, contains_text}
use gsrr_agent_harness.Contracts.Record.{Record-discrete, comparable, same_record}
use gsrr_agent_harness.Journal.Defs.{
  new_id, id_text, lookup, or_key_error, get, is_null, keep_record, retain,
}
use gsrr_agent_harness.Journal.Event.{get_all, chosen_id, append_event, keep_event, event}
use gsrr_agent_harness.Retry.Defs.{Supervisor, retain_ledger, remember_ledger, emit}
use gsrr_agent_harness.Retry.Lifecycle.{first_ledger, fresh_attempt, need, find, put}
use gsrr_agent_harness.Retry.Eligibility.{
  allowed_control, policy_control, eligibility, or_type_error, count_failures, over_threshold,
  exhausted,
}
use gsrr_agent_harness.Retry.Successor.{
  allocate, eligible_successor, report_eligibility, decided_successor, scoped_successor,
  new_successor, successor_of, successor,
}
use gsrr_agent_harness.Retry.Retrieval.{successor-successor}

-- The journal of a run that has retained its policy and the two records that the scope names.
abbrev bound_journal : Journal
bound_journal =
    let j = new_journal "run-1" in
    record j {
      aggregate = record j.aggregate {
        records =
            ("retry-1", Record.policy retry_once)
            ∷ ("run-1:approval:7", Record.approval approval)
            ∷ ("run-1:envelope:8", Record.envelope envelope)
            ∷ ("checks", Record.strings ("fresh" ∷ []))
            ∷ [];
      };
    }

-- A failed first attempt, then two requests for its successor, the second of which retrieves it.
abbrev retried : List Method
retried =
    Method.start_call
    ∷ Method.bind_call approval envelope
    ∷ Method.fail_call Control.reject_retryable "GENERATED_PLAN_ENVELOPE_VIOLATION" ("checks" ∷ [])
        true
    ∷ Method.successor_call "run-1:attempt:1" Mode.explicit_plan Control.pass ("checks" ∷ []) false
    ∷ Method.successor_call "run-1:attempt:1" Mode.explicit_plan Control.pass ("checks" ∷ []) false
    ∷ Method.admission_call
    ∷ []

calls-IsScope_example :
    IsScope
      (calls retried
        (record { journal = bound_journal; own = new_supervisor (some retry_once) })).own
calls-IsScope_example = calls-IsScope (some retry_once) bound_journal retried

-- A supervisor whose first attempt has failed, in scope and with a retained failure.
abbrev failed : Shared Supervisor
failed = record {
  journal = bound_journal;
  own = record (new_supervisor (some retry_once)) {
    attempts =
        record {
          attempt_id = "run-1:attempt:1";
          attempt_number = 1;
          prior_attempt_id = none;
          terminal = true;
          failure_class = some "GENERATED_PLAN_ENVELOPE_VIOLATION";
        }
        ∷ [];
    ledger = some (record (first_ledger "run-1:scope:2" "retry-1" "run-1:attempt:1") {
      active_attempt_id = none;
    });
    failure_refs = ("run-1:attempt:1", "checks") ∷ [];
  };
}

allocated_second :
    (successor "run-1:attempt:1" Mode.explicit_plan Control.pass ("checks" ∷ []) false failed).0
    ≡ Result.ok (some (fresh_attempt "run-1:attempt:2" 2 (some "run-1:attempt:1")))
unfolding successor successor_of new_successor scoped_successor eligibility policy_control
    allowed_control decided_successor report_eligibility eligible_successor exhausted or_type_error
    over_threshold count_failures allocate emit remember_ledger retain_ledger in_journal own_gets
    own_modify need event get_all get or_key_error lookup chosen_id new_id id_text append_event
    keep_event retain keep_record is_null same_record comparable Record-discrete
    RetryPolicy-discrete valid contains_text find put ◌>>=◌ decide
allocated_second = refl

-- What is called between the two requests: the attempt that was allocated fails too.
abbrev between : List Method
between =
    Method.bind_call approval envelope
    ∷ Method.fail_call Control.reject_retryable "GENERATED_PLAN_ENVELOPE_VIOLATION" ("checks" ∷ [])
        true
    ∷ Method.successor_call "run-1:attempt:2" Mode.explicit_plan Control.pass ("checks" ∷ []) false
    ∷ Method.admission_call
    ∷ []

successor-successor_example :
    let t =
      calls between
        (successor "run-1:attempt:1" Mode.explicit_plan Control.pass
          ("checks" ∷ [])
          false
          failed).1 in
    successor "run-1:attempt:1" Mode.delegated_realization Control.circuit_open [] true t
    ≡ (Result.ok (some (fresh_attempt "run-1:attempt:2" 2 (some "run-1:attempt:1"))), t)
successor-successor_example =
    successor-successor "run-1:attempt:1" Mode.explicit_plan Mode.delegated_realization Control.pass
      Control.circuit_open ("checks" ∷ []) [] false true failed between
      (fresh_attempt "run-1:attempt:2" 2 (some "run-1:attempt:1")) allocated_second
