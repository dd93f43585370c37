-- ===== src/Fixture/Calls.antt =====
-- src/gsrr_slice01/fixture.py: the provider's methods called in any order, `external_change` and the
-- diagnostic flag of `apply` left out.
use gsrr_agent_harness.Prelude.{String, refl, Bool, false, List, [], ◌∷◌, string_eq}
use gsrr_agent_harness.Exec.{Exec, pure, ◌>>◌}
use gsrr_agent_harness.Exec.Keeps.{
  Keeps, Keeps-bind, Keeps-pure, Keeps-gets, preserving, keeps_rules,
}
use gsrr_agent_harness.Exec.Triple.{Keeps-triple}
use gsrr_agent_harness.Shared.{
  Shared, in_journal, in_journal-own, own_gets, own_modify, own_modify-own,
}
use gsrr_agent_harness.Contracts.Domain.{FixedInput, Definition}
use gsrr_agent_harness.Contracts.Effects.{ObservedState}
use gsrr_agent_harness.Journal.Defs.{Journal}
use gsrr_agent_harness.Fixture.Defs.{ActionRequest, Provider, new_provider}
use gsrr_agent_harness.Fixture.Provider.{open_interval, apply, close, close_interval}
use gsrr_agent_harness.Fixture.Observe.{count_read, with_conflict, observe, snapshot}
use gsrr_agent_harness.Fixture.Effect.{IsSingle, I, open_interval-Triple, apply-Triple}

single_journal : {A : Type 0} (m : Exec Journal A) → Keeps (preserving I) (in_journal m)
single_journal m = in_journal-own IsSingle m

single_gets : {A : Type 0} (f : Provider → A) → Keeps (preserving I) (own_gets f)
unfolding own_gets
single_gets f = Keeps-gets _

close_interval-IsSingle : Keeps (preserving I) close_interval
unfolding close_interval
close_interval-IsSingle =
    Keeps-bind _ _
      (own_modify-own IsSingle close (λ s h. record { view = h.view; claims = h.claims }))
      λ _. search (keeps_rules, single_journal, single_gets)

count_read-IsSingle : Keeps (preserving I) (own_modify count_read)
count_read-IsSingle =
    own_modify-own IsSingle count_read (λ s h. record { view = h.view; claims = h.claims })

with_conflict-IsSingle :
    (fault : String) (obs : ObservedState) → Keeps (preserving I) (with_conflict fault obs)
unfolding with_conflict
with_conflict-IsSingle fault obs = search (keeps_rules, single_journal) depth 7

observe-IsSingle : (fault : String) (initial : Bool) → Keeps (preserving I) (observe fault initial)
unfolding observe
observe-IsSingle fault initial =
    Keeps-bind _ _ count_read-IsSingle
      λ _. search (keeps_rules, single_journal, single_gets, with_conflict-IsSingle) depth 9

snapshot-IsSingle :
    (definition : Definition) (observed : ObservedState)
    → Keeps (preserving I) (snapshot definition observed)
unfolding snapshot
snapshot-IsSingle definition observed =
    Keeps-bind _ _ count_read-IsSingle
      λ _. search (keeps_rules, single_journal, single_gets) depth 9

pub data Method : Type 0 where
  open_call : String → Method
  apply_call : ActionRequest → FixedInput → Method
  close_call : Method
  observe_call : String → Bool → Method
  snapshot_call : Definition → ObservedState → Method

-- A call, its result forgotten.
unfoldable pub call : Method → Exec (Shared Provider) (Unit {0})
call (Method.open_call commit_id) = open_interval commit_id
call (Method.apply_call request fixed) = do apply request fixed false; pure tt
call Method.close_call = do close_interval; pure tt
call (Method.observe_call fault initial) = do observe fault initial; pure tt
call (Method.snapshot_call definition observed) = do snapshot definition observed; pure tt

call-IsSingle : (m : Method) → Keeps (preserving I) (call m)
unfolding call
call-IsSingle (Method.open_call commit_id) = Keeps-triple _ (open_interval-Triple commit_id)
call-IsSingle (Method.apply_call request fixed) =
    Keeps-bind _ _ (Keeps-triple _ (apply-Triple request fixed)) λ _. Keeps-pure tt
call-IsSingle Method.close_call = Keeps-bind _ _ close_interval-IsSingle λ _. Keeps-pure tt
call-IsSingle (Method.observe_call fault initial) =
    Keeps-bind _ _ (observe-IsSingle fault initial) λ _. Keeps-pure tt
call-IsSingle (Method.snapshot_call definition observed) =
    Keeps-bind _ _ (snapshot-IsSingle definition observed) λ _. Keeps-pure tt

-- The state after the calls, whatever each of them returns or raises.
unfoldable pub calls : List Method → Shared Provider → Shared Provider
calls [] s = s
calls (m ∷ ms) s = calls ms (call m s).1

calls_keep : (ms : List Method) (s : Shared Provider) → I s → I (calls ms s)
unfolding calls
calls_keep [] s h = h
calls_keep (m ∷ ms) s h = calls_keep ms (call m s).1 ((call-IsSingle m).at s h)

-- A new provider, over whatever journal, whose methods other than `external_change` are called in any
-- order, any number of times, with any requests, `apply` without its diagnostic flag, and whether the
-- calls return or raise: there is no invocation and the effect view is the first one, or there is
-- exactly one invocation and the view is the first one or the one that differs from it by the state
-- REVIEW, the version 2 over 1, and that invocation's commit.
pub calls-IsSingle :
    (j : Journal) (ms : List Method)
    → IsSingle (calls ms (record { journal = j; own = new_provider })).own
calls-IsSingle j ms =
    calls_keep ms (record { journal = j; own = new_provider })
      (record { view = refl; claims = refl })
