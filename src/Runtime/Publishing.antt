-- ===== src/Runtime/Publishing.antt =====
-- src/gsrr_slice01/runtime.py: what is made of the parts (Parts): `project`.
use gsrr_agent_harness.Prelude.{
  String, refl, ◌≡◌, subst, Bool, true, false, Option, none, some, if◌then◌else◌,
}
use gsrr_agent_harness.Exec.Keeps.{Order, Keeps, Keeps-bind, keeps_rules}
use gsrr_agent_harness.Shared.{Shared, in_journal}
use gsrr_agent_harness.Contracts.Enums.{Outcome, Decision}
use gsrr_agent_harness.Contracts.Plans.{ExecutionEnvelope, RealizationCommit}
use gsrr_agent_harness.Contracts.Results.{ReconciliationResult, ProjectionDecision, RuntimeEvent}
use gsrr_agent_harness.Journal.Basic.{target_in, target_of}
use gsrr_agent_harness.Journal.Publish.{publish}
use gsrr_agent_harness.Retry.Journaled.{need-Keeps}
use gsrr_agent_harness.Runtime.Project.{
  Judgement, judge_outcome, is_project, last_event, projection_event, stop_unless_applied,
  publish_judgement, project_into, project_run, project, built_decision,
}
use gsrr_agent_harness.Runtime.Defs.{Runtime}
use gsrr_agent_harness.Runtime.Stable.{Stable, Steady}
use gsrr_agent_harness.Runtime.Parts.{steady_rules, new_id-Steady, gets_journal-Keeps}
use gsrr_agent_harness.Runtime.Steps.{stop-Steady, fresh-Steady}

pub judge_outcome-Steady :
    (r : ReconciliationResult) (before_id : String) (outcome : Outcome)
    → Steady (judge_outcome r before_id outcome)
unfolding judge_outcome
judge_outcome-Steady r before_id Outcome.reconciled_success o k =
    search (steady_rules, fresh-Steady) depth 9
judge_outcome-Steady r before_id Outcome.reconciliation_failed o k = search keeps_rules
judge_outcome-Steady r before_id outcome o k = search keeps_rules

last_event-Steady : (e : Option RuntimeEvent) → Steady (last_event e)
unfolding last_event
last_event-Steady none o k = search keeps_rules
last_event-Steady (some e) o k = search keeps_rules

pub projection_event-Steady :
    (unavailable : Bool) (d : ProjectionDecision) (r : ReconciliationResult) (e : ExecutionEnvelope)
    (g : Judgement)
    → Steady (projection_event unavailable d r e g)
unfolding projection_event
projection_event-Steady true d r e g o k = search keeps_rules
projection_event-Steady false d r e g o k = search (steady_rules, last_event-Steady) depth 16

pub stop_unless_applied-Steady :
    (d : ProjectionDecision) (g : Judgement) → Steady (stop_unless_applied d g)
unfolding stop_unless_applied
stop_unless_applied-Steady d g o k = search (keeps_rules, stop-Steady) depth 9

target_in-is_project :
    (decision : Decision) (target : String)
    → target_in decision target ≡ (if is_project decision then some target else none)
target_in-is_project Decision.project target = refl
target_in-is_project Decision.hold_projection target = refl
target_in-is_project Decision.do_not_project target = refl

module _ (o : Order (Shared Runtime)) (k : Stable o)
    (publishes : (d : ProjectionDecision) (e : Option RuntimeEvent)
      → Keeps o (in_journal (publish d e (target_of d)))) where
  -- A decision is published with the state that it decides.
  publish-Keeps :
      (d : ProjectionDecision) (event : Option RuntimeEvent)
      → Keeps o (
          in_journal
            (publish d event (if is_project d.final_decision then some d.target_state else none)))
  publish-Keeps d event =
      subst (λ (x : Option String). Keeps o (in_journal (publish d event x)))
        (target_in-is_project d.final_decision d.target_state) (publishes d event)

  publish_judgement-Keeps :
      (r : ReconciliationResult) (e : Option ExecutionEnvelope) (c : RealizationCommit)
      (retention : String) (failed unavailable : Bool) (g : Judgement)
      → Keeps o (publish_judgement r e c retention failed unavailable g)
  unfolding publish_judgement
  publish_judgement-Keeps r envelope c retention failed unavailable g =
      Keeps-bind _ _ (new_id-Steady "projection" o k) λ ref.
        Keeps-bind _ _ (need-Keeps envelope) λ e.
          gets_journal-Keeps o (built_decision r e c retention failed unavailable g ref) _ λ j.
            let d = built_decision r e c retention failed unavailable g ref j in
            Keeps-bind _ _ (projection_event-Steady unavailable d r e g o k) λ event.
              Keeps-bind _ _ (publish-Keeps d event)
                λ _. search (keeps_rules, stop_unless_applied-Steady)

  pub project_into-Keeps :
      (r : ReconciliationResult) (e : Option ExecutionEnvelope) (c : RealizationCommit)
      (retention : String)
      → Keeps o (project_into r e c retention)
  unfolding project_into
  project_into-Keeps r e c retention =
      search (steady_rules, judge_outcome-Steady, publish_judgement-Keeps) depth 12

-- Where what follows the reservation keeps an order, the projection does.
pub project-Keeps :
    (o : Order (Shared Runtime))
    → Stable o
    → ((r : ReconciliationResult) (e : Option ExecutionEnvelope) (c : RealizationCommit)
          (retention : String)
        → Keeps o (project_into r e c retention))
    → Keeps o project
unfolding project project_run
project-Keeps o k into = search (steady_rules, stop-Steady) depth 18
