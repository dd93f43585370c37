-- ===== src/Runtime/Parts/Reading.antt =====
-- src/gsrr_slice01/runtime.py: the runtime's reads and assignments, and its calls of the journal.
use gsrr_agent_harness.Prelude.{ℕ, String, ◌≡◌, Bool, Option, List}
use gsrr_agent_harness.Exec.{Exec, gets}
use gsrr_agent_harness.Exec.Keeps.{Keeps-gets}
use gsrr_agent_harness.Shared.{in_journal, own_gets}
use gsrr_agent_harness.Contracts.Enums.{Mode}
use gsrr_agent_harness.Contracts.Domain.{Definition}
use gsrr_agent_harness.Contracts.Effects.{ObservedState}
use gsrr_agent_harness.Contracts.Planning.{
  AuthoritativeStateSnapshot, CandidateTransition, ApprovedTransition,
}
use gsrr_agent_harness.Contracts.Plans.{CapabilityDescriptor, ExecutionEnvelope, ExecutionPlan}
use gsrr_agent_harness.Contracts.Results.{ExecutionResult}
use gsrr_agent_harness.Contracts.Record.{Record}
use gsrr_agent_harness.Journal.Defs.{Journal, new_id, retain, reserve}
use gsrr_agent_harness.Journal.Event.{EventCall, event}
use gsrr_agent_harness.Journal.Basic.{IsPlain}
use gsrr_agent_harness.Retry.Defs.{Supervisor}
use gsrr_agent_harness.Retry.Lifecycle.{fail}
use gsrr_agent_harness.Fixture.Defs.{FixtureFaults}
use gsrr_agent_harness.Fixture.Capability.{Capability}
use gsrr_agent_harness.Governance.Building.{envelope, build_instruction, propose}
use gsrr_agent_harness.Governance.Validation.{is_retained, validate_plan}
use gsrr_agent_harness.Governance.Journaled.{
  propose-JournaledIn, envelope-Journaled, build_instruction-Journaled, is_retained-Journaled,
  validate_plan-Journaled,
}
use gsrr_agent_harness.Reconciliation.Reconcile.{reconcile}
use gsrr_agent_harness.Reconciliation.Journaled.{reconcile-Journaled}
use gsrr_agent_harness.Runtime.Defs.{
  Run, Runtime, in_planner, in_capability, get_run, set_run, get_faults, get_supervisor,
}
use gsrr_agent_harness.Runtime.Inject.{inject}
use gsrr_agent_harness.Runtime.Stable.{Steady}

module _ {A : Type 0} where
  pub own_gets-Steady : (f : Runtime → A) → Steady (own_gets f)
  unfolding own_gets
  own_gets-Steady f o k = Keeps-gets _

  pub get_run-Steady : (f : Run → A) → Steady (get_run f)
  unfolding get_run own_gets
  get_run-Steady f o k = Keeps-gets _

  pub get_faults-Steady : (f : FixtureFaults → A) → Steady (get_faults f)
  unfolding get_faults own_gets
  get_faults-Steady f o k = Keeps-gets _

  pub get_supervisor-Steady : (f : Supervisor → A) → Steady (get_supervisor f)
  unfolding get_supervisor own_gets
  get_supervisor-Steady f o k = Keeps-gets _

  pub journal_gets-Steady : (f : Journal → A) → Steady (in_journal (gets f))
  journal_gets-Steady f o k = k.core.at_journal (gets f) (λ q b. Keeps-gets f)

  pub in_capability-Steady : (m : Exec Capability A) → Steady (in_capability m)
  in_capability-Steady m o k = k.core.at_capability m

pub set_run-Steady : (f : Run → Run) → ((r : Run) → (f r).before ≡ r.before) → Steady (set_run f)
set_run-Steady f same o k = k.core.at_run f same

pub inject-Steady : (seam : String) → Steady (inject seam)
inject-Steady seam o k = k.at_inject seam

pub new_id-Steady : (kind : String) → Steady (in_journal (new_id kind))
new_id-Steady kind o k = k.core.at_journal _ (λ q b. b.at_new_id kind)

pub retain-Steady : (ref : String) (r : Record) → IsPlain r → Steady (in_journal (retain ref r))
retain-Steady ref r plain o k = k.core.at_journal _ (λ q b. b.at_retain ref r plain)

pub event-Steady : (c : EventCall) → Steady (in_journal (event c))
event-Steady c o k = k.core.at_journal _ (λ q b. b.at_event c)

pub reserve-Steady :
    (ref : String) (inputs : List String) (fail : Bool)
    → Steady (in_journal (reserve ref inputs fail))
reserve-Steady ref inputs fail o k = k.core.at_journal _ (λ q b. b.at_reserve ref inputs fail)

pub is_retained-Steady : (ref : String) (r : Record) → Steady (in_journal (is_retained ref r))
is_retained-Steady ref r o k = k.core.at_journal _ (is_retained-Journaled ref r)

pub envelope-Steady :
    (a : ApprovedTransition) (t : CandidateTransition) (d : Definition)
    (before : AuthoritativeStateSnapshot) (x : ObservedState)
    → Steady (in_journal (envelope a t d before x))
envelope-Steady a t d before x o k = k.core.at_journal _ (envelope-Journaled a t d before x)

pub build_instruction-Steady :
    (e : ExecutionEnvelope) (attempt_id : String) (mode : Mode) (defect : String)
    → Steady (in_journal (build_instruction e attempt_id mode defect))
build_instruction-Steady e attempt_id mode defect o k =
    k.core.at_journal _ (build_instruction-Journaled e attempt_id mode defect)

pub validate_plan-Steady :
    (p : ExecutionPlan) (e : ExecutionEnvelope) (a : ApprovedTransition) (d : Definition)
    (cap : CapabilityDescriptor) (attempt_id : String)
    → Steady (in_journal (validate_plan p e a d cap attempt_id))
validate_plan-Steady p e a d cap attempt_id o k =
    k.core.at_journal _ (validate_plan-Journaled p e a d cap attempt_id)

pub reconcile-Steady :
    (e : ExecutionEnvelope) (before : AuthoritativeStateSnapshot) (baseline : ObservedState)
    (x : ExecutionResult) (observed : Option ObservedState) (version : ℕ)
    → Steady (in_journal (reconcile e before baseline x observed version))
reconcile-Steady e before baseline x observed version o k =
    k.core.at_journal _ (reconcile-Journaled e before baseline x observed version)

pub propose-Steady :
    (e : ExecutionEnvelope) (attempt_id defect : String)
    → Steady (in_planner (propose e attempt_id defect))
propose-Steady e attempt_id defect o k =
    k.core.at_planner _ (propose-JournaledIn e attempt_id defect)
