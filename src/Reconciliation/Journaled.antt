-- ===== src/Reconciliation/Journaled.antt =====
-- src/gsrr_slice01/reconciliation.py: `reconcile` changes the journal by basic calls alone.
use gsrr_agent_harness.Prelude.{ℕ, String, Bool, Option, none, some, List}
use gsrr_agent_harness.Exec.Keeps.{Order, Keeps, keeps_rules}
use gsrr_agent_harness.Contracts.Effects.{Action, ObservedState}
use gsrr_agent_harness.Contracts.Planning.{AuthoritativeStateSnapshot}
use gsrr_agent_harness.Contracts.Plans.{ExecutionEnvelope}
use gsrr_agent_harness.Contracts.Results.{ExecutionResult}
use gsrr_agent_harness.Contracts.Record.{Record}
use gsrr_agent_harness.Journal.Defs.{Journal}
use gsrr_agent_harness.Journal.Basic.{Basic, Journaled, get-Keeps}
use gsrr_agent_harness.Governance.Journaled.{is_retained-Journaled}
use gsrr_agent_harness.Reconciliation.Evidence.{
  counts, is_logged, is_complete, find_record, differs, judge, attribution,
}
use gsrr_agent_harness.Reconciliation.Reconcile.{conclude, reconcile}

module _ (q : Order Journal) (b : Basic q) where
  counts-Keeps : (start end : Option ℕ) (n : ℕ) → Keeps q (counts start end n)
  unfolding counts
  counts-Keeps none end n = search keeps_rules
  counts-Keeps (some start) none n = search keeps_rules
  counts-Keeps (some start) (some end) n = search keeps_rules

  is_logged-Keeps : (ref : Option String) (actions : List Action) → Keeps q (is_logged ref actions)
  unfolding is_logged
  is_logged-Keeps none actions = search keeps_rules
  is_logged-Keeps (some ref) actions = search (keeps_rules, is_retained-Journaled, b)

  is_complete-Keeps : (x : ExecutionResult) (o : Option ObservedState) → Keeps q (is_complete x o)
  unfolding is_complete
  is_complete-Keeps x none = search keeps_rules
  is_complete-Keeps x (some o) = search (keeps_rules, counts-Keeps, is_logged-Keeps) depth 7

  find_record-Keeps : (ref : Option String) → Keeps q (find_record ref)
  unfolding find_record
  find_record-Keeps none = search keeps_rules
  find_record-Keeps (some ref) = search (keeps_rules, get-Keeps) depth 7

  differs-Keeps : (r : Record) (o : ObservedState) → Keeps q (differs r o)
  unfolding differs
  differs-Keeps (Record.observed x) o = search keeps_rules
  differs-Keeps r o = search keeps_rules

  judge-Keeps : (a : Bool) (o : ObservedState) (r : Option Record) → Keeps q (judge a o r)
  unfolding judge
  judge-Keeps a o none = search keeps_rules
  judge-Keeps a o (some r) = search (keeps_rules, differs-Keeps) depth 7

  attribution-Keeps : (a : Bool) (o : Option ObservedState) → Keeps q (attribution a o)
  unfolding attribution
  attribution-Keeps a none = search keeps_rules
  attribution-Keeps a (some o) = search (keeps_rules, find_record-Keeps, judge-Keeps) depth 7

pub reconcile-Journaled :
    (e : ExecutionEnvelope) (before : AuthoritativeStateSnapshot) (baseline : ObservedState)
    (x : ExecutionResult) (o : Option ObservedState) (version : ℕ)
    → Journaled (reconcile e before baseline x o version)
unfolding reconcile conclude
reconcile-Journaled e before baseline x o version q b =
    search (keeps_rules, is_complete-Keeps q b, attribution-Keeps q b, b.at_new_id, b.at_retain)
      depth 14
