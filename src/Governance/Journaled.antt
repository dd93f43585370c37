-- ===== src/Governance/Journaled.antt =====
-- src/gsrr_slice01/governance.py: the functions change the journal by basic calls alone.
use gsrr_agent_harness.Prelude.{String, Bool, List, [], ◌∷◌}
use gsrr_agent_harness.Exec.{Exec}
use gsrr_agent_harness.Exec.Keeps.{Order, Keeps, Keeps-bind, keeps_rules}
use gsrr_agent_harness.Contracts.Enums.{Mode}
use gsrr_agent_harness.Contracts.Domain.{Definition}
use gsrr_agent_harness.Contracts.Effects.{ObservedState}
use gsrr_agent_harness.Contracts.Planning.{
  AuthoritativeStateSnapshot, CandidateTransition, ApprovedTransition,
}
use gsrr_agent_harness.Contracts.Plans.{CapabilityDescriptor, ExecutionEnvelope, ExecutionPlan}
use gsrr_agent_harness.Contracts.Record.{Record}
use gsrr_agent_harness.Journal.Basic.{Journaled, get-Keeps}
use gsrr_agent_harness.Governance.Building.{
  descriptor, envelope, first, build_instruction, count_call, propose,
}
use gsrr_agent_harness.Journal.Sharing.{JournaledIn, own_modify-JournaledIn, in_journal-JournaledIn}
use gsrr_agent_harness.Governance.Validation.{and_then, is_retained, exact_plan, validate_plan}

pub descriptor-Journaled : (d : Definition) → Journaled (descriptor d)
unfolding descriptor
descriptor-Journaled d q b = search (keeps_rules, b.at_retain) depth 9

pub envelope-Journaled :
    (a : ApprovedTransition) (t : CandidateTransition) (d : Definition)
    (before : AuthoritativeStateSnapshot) (o : ObservedState)
    → Journaled (envelope a t d before o)
unfolding envelope
envelope-Journaled a t d before o q b = search (keeps_rules, b.at_new_id, b.at_retain) depth 12

first-Journaled : (refs : List String) → Journaled (first refs)
unfolding first
first-Journaled [] q b = search keeps_rules
first-Journaled (ref ∷ rest) q b = search keeps_rules

pub build_instruction-Journaled :
    (e : ExecutionEnvelope) (attempt_id : String) (mode : Mode) (defect : String)
    → Journaled (build_instruction e attempt_id mode defect)
unfolding build_instruction
build_instruction-Journaled e attempt_id mode defect q b =
    search (keeps_rules, first-Journaled, b, b.at_new_id, b.at_retain) depth 12

pub is_retained-Journaled : (ref : String) (r : Record) → Journaled (is_retained ref r)
unfolding is_retained
is_retained-Journaled ref r q b = search (keeps_rules, get-Keeps)

pub and_then-Keeps :
    {S : Type 0} (o : Order S) (m n : Exec S Bool) → Keeps o m → Keeps o n → Keeps o (and_then m n)
unfolding and_then
and_then-Keeps o m n km kn = search keeps_rules

exact_plan-Journaled :
    (p : ExecutionPlan) (e : ExecutionEnvelope) (a : ApprovedTransition) (d : Definition)
    (cap : CapabilityDescriptor) (attempt_id : String)
    → Journaled (exact_plan p e a d cap attempt_id)
unfolding exact_plan
exact_plan-Journaled p e a d cap attempt_id q b =
    search (and_then-Keeps q, is_retained-Journaled, b, keeps_rules) depth 8

pub validate_plan-Journaled :
    (p : ExecutionPlan) (e : ExecutionEnvelope) (a : ApprovedTransition) (d : Definition)
    (cap : CapabilityDescriptor) (attempt_id : String)
    → Journaled (validate_plan p e a d cap attempt_id)
unfolding validate_plan
validate_plan-Journaled p e a d cap attempt_id q b =
    search (keeps_rules, exact_plan-Journaled, b, b.at_new_id, b.at_retain) depth 12

pub propose-JournaledIn :
    (e : ExecutionEnvelope) (attempt_id defect : String) → JournaledIn (propose e attempt_id defect)
unfolding propose
propose-JournaledIn e attempt_id defect q b =
    Keeps-bind _ _ (own_modify-JournaledIn count_call q b) λ _.
      in_journal-JournaledIn _ (build_instruction-Journaled e attempt_id Mode.explicit_plan defect)
        q b
