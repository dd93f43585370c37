-- ===== src/Fixture/Once.antt =====
-- src/gsrr_slice01/fixture.py: the invocations that the provider counts, under every method.
use gsrr_agent_harness.Prelude.{
  ◌+◌, String, ◌≡◌, refl, sym, subst, ap, Bool, false, Option, none, some, string_eq,
}
use gsrr_agent_harness.Exec.{Exec}
use gsrr_agent_harness.Exec.Keeps.{Order, preserving, Keeps, Keeps-gets, keeps_rules}
use gsrr_agent_harness.Exec.Triple.{Triple-bind, Triple-raise_if, Keeps-triple}
use gsrr_agent_harness.Shared.{
  Shared, in_journal, in_journal-own, own_gets, own_modify, own_modify-own, read, write,
}
use gsrr_agent_harness.Contracts.Domain.{FixedInput, Definition}
use gsrr_agent_harness.Contracts.Effects.{ObservedState}
use gsrr_agent_harness.Journal.Defs.{Journal}
use gsrr_agent_harness.Fixture.Defs.{ActionRequest, Provider}
use gsrr_agent_harness.Fixture.Provider.{
  is_claimed, opened_interval, open_interval, apply_in, apply_at, apply, close_interval,
}
use gsrr_agent_harness.Fixture.Observe.{with_conflict, observe, snapshot, external_change}
use gsrr_agent_harness.Fixture.Effect.{Claims}

-- The count of the invocations: 1 when one is current, else 0.
abbrev pub IsOnce : Provider → Type 0
IsOnce s = Claims s.current_invocation s.invocation_count

abbrev pub once : Order (Shared Provider)
once = preserving (λ s. IsOnce s.own)

once_journal : {A : Type 0} (m : Exec Journal A) → Keeps once (in_journal m)
once_journal m = in_journal-own IsOnce m

once_gets : {A : Type 0} (f : Provider → A) → Keeps once (own_gets f)
unfolding own_gets
once_gets f = Keeps-gets _

-- An assignment that leaves the invocation alone.
once_modify :
    (f : Provider → Provider)
    → ((s : Provider) → (f s).current_invocation ≡ s.current_invocation)
    → ((s : Provider) → (f s).invocation_count ≡ s.invocation_count)
    → Keeps once (own_modify f)
once_modify f now count = own_modify-own IsOnce f (λ s h. rw (now s, count s) h)

ruleset once_rules = (keeps_rules, once_journal, once_gets, once_modify, refl)

opened-IsOnce :
    (now : Option String) (commit_id : String) (s : Provider)
    → (IsOnce s × (now ≡ s.current_invocation)) × (is_claimed now ≡ false)
    → IsOnce (opened_interval commit_id s)
opened-IsOnce none commit_id s ((h, e), _) =
    ap (λ n. n + 1) (subst (λ (c : Option String). Claims c s.invocation_count) (sym e) h)
opened-IsOnce (some c) commit_id s (_, claimed) = cc

pub open_interval-once : (commit_id : String) → Keeps once (open_interval commit_id)
unfolding open_interval
open_interval-once commit_id = Keeps-triple _ (
    Triple-bind _ _ (read IsOnce IsOnce (λ s. s.current_invocation)) λ now.
      Triple-bind _ _ (Triple-raise_if _ _ (λ s h. h.0)) λ _.
        write (λ o. (IsOnce o × (now ≡ o.current_invocation)) × (is_claimed now ≡ false)) IsOnce
          IsOnce (opened_interval commit_id) (opened-IsOnce now commit_id))

apply_in-once :
    (request : ActionRequest) (fixed : FixedInput) (diagnostic : Bool) (invocation : String)
    → Keeps once (apply_in request fixed diagnostic invocation)
unfolding apply_in
apply_in-once request fixed diagnostic invocation = search once_rules depth 14

apply_at-once :
    (request : ActionRequest) (fixed : FixedInput) (diagnostic : Bool) (now : Option String)
    (closed : Bool)
    → Keeps once (apply_at request fixed diagnostic now closed)
unfolding apply_at
apply_at-once request fixed diagnostic none closed = search keeps_rules
apply_at-once request fixed diagnostic (some invocation) closed =
    search (keeps_rules, apply_in-once) depth 7

pub apply-once :
    (request : ActionRequest) (fixed : FixedInput) (diagnostic : Bool)
    → Keeps once (apply request fixed diagnostic)
unfolding apply
apply-once request fixed diagnostic = search (once_rules, apply_at-once) depth 9

pub close_interval-once : Keeps once close_interval
unfolding close_interval
close_interval-once = search once_rules depth 14

with_conflict-once : (fault : String) (o : ObservedState) → Keeps once (with_conflict fault o)
unfolding with_conflict
with_conflict-once fault o = search once_rules depth 9

pub observe-once : (fault : String) (initial : Bool) → Keeps once (observe fault initial)
unfolding observe
observe-once fault initial = search (once_rules, with_conflict-once) depth 16

pub snapshot-once : (d : Definition) (o : ObservedState) → Keeps once (snapshot d o)
unfolding snapshot
snapshot-once d o = search once_rules depth 16

pub external_change-once : (kind : String) → Keeps once (external_change kind)
unfolding external_change
external_change-once kind = search once_rules depth 9
