-- ===== src/Fixture/Effect.antt =====
-- src/gsrr_slice01/fixture.py: the effect of `open_interval` and of `apply` without its diagnostic flag.
use gsrr_agent_harness.Prelude.{
  ℕ, ◌+◌, String, ◌≡◌, sym, subst, ap, Bool, false, inl, Option, none, some, string_eq,
}
use gsrr_agent_harness.Exec.Keeps.{Keeps-pure}
use gsrr_agent_harness.Exec.Triple.{
  Triple, Triple-bind, Triple-raise, Triple-raise_if, Triple-keeps, Triple-pre, Triple-if,
}
use gsrr_agent_harness.Shared.{Shared, in_journal, in_journal-own, frame, read, write}
use gsrr_agent_harness.Contracts.Domain.{FixedInput}
use gsrr_agent_harness.Contracts.Effects.{Action}
use gsrr_agent_harness.Contracts.Record.{Record}
use gsrr_agent_harness.Journal.Defs.{retain}
use gsrr_agent_harness.Fixture.Defs.{ActionRequest, EffectView, new_view, Provider}
use gsrr_agent_harness.Fixture.Provider.{
  is_claimed, opened_interval, open_interval, new_entry, log_action, set_view, view_after, apply_in,
  apply_at, apply,
}
use gsrr_agent_harness.Fixture.Allowed.{Single, view_after-Single}

-- Without an invocation the view is the first one; with one, it has changed at most once, by it.
abbrev pub View : Option String → EffectView → Type 0
View none view = view ≡ new_view
View (some invocation) view = Single invocation view

abbrev pub Claims : Option String → ℕ → Type 0
Claims none n = n ≡ 0
Claims (some invocation) n = n ≡ 1

pub record IsSingle (s : Provider) : Type 0 where
  pub view : View s.current_invocation s.view
  pub claims : Claims s.current_invocation s.invocation_count

abbrev pub I : Shared Provider → Type 0
I s = IsSingle s.own

opened-IsSingle :
    (now : Option String) (commit_id : String) (s : Provider)
    → (IsSingle s × (now ≡ s.current_invocation)) × (is_claimed now ≡ false)
    → IsSingle (opened_interval commit_id s)
opened-IsSingle none commit_id s ((h, e), _) = record {
  view = inl (subst (λ (c : Option String). View c s.view) (sym e) h.view);
  claims =
      ap (λ n. n + 1) (subst (λ (c : Option String). Claims c s.invocation_count) (sym e) h.claims);
}
opened-IsSingle (some c) commit_id s (_, claimed) = cc

pub open_interval-Triple : (commit_id : String) → Triple I (open_interval commit_id) (λ u. I) I
unfolding open_interval
open_interval-Triple commit_id =
    Triple-bind _ _ (read IsSingle IsSingle (λ s. s.current_invocation)) λ now.
      Triple-bind _ _ (Triple-raise_if _ _ (λ s h. h.0)) λ _.
        write (λ o. (IsSingle o × (now ≡ o.current_invocation)) × (is_claimed now ≡ false)) IsSingle
          IsSingle (opened_interval commit_id) (opened-IsSingle now commit_id)

-- In the interval of an invocation, with the view that was read.
abbrev InInterval : String → EffectView → Provider → Type 0
InInterval invocation before s =
    IsSingle s × (some invocation ≡ s.current_invocation) × (before ≡ s.view)

set_view-IsSingle :
    (request : ActionRequest) (fixed : FixedInput) (invocation : String) (before : EffectView)
    (s : Provider)
    → InInterval invocation before s
    → IsSingle (set_view (view_after request fixed false invocation before) s)
set_view-IsSingle request fixed invocation before s (h, e, b) =
    let old : View (some invocation) before =
      subst (λ (c : Option String). View c before) (sym e)
        (subst (λ (v : EffectView). View s.current_invocation v) (sym b) h.view) in
    record {
      view =
          subst (λ (c : Option String). View c (view_after request fixed false invocation before)) e
            (view_after-Single request fixed invocation before old);
      claims = h.claims;
    }

log_action-InInterval :
    (invocation : String) (before : EffectView) (entry : Action) (s : Provider)
    → InInterval invocation before s
    → InInterval invocation before (log_action entry s)
log_action-InInterval invocation before entry s (h, e, b) =
    (record { view = h.view; claims = h.claims }, e, b)

apply_in-Triple :
    (request : ActionRequest) (fixed : FixedInput) (invocation : String)
    → Triple
        (λ s. I s × (some invocation ≡ s.own.current_invocation))
        (apply_in request fixed false invocation)
        (λ a. I)
        I
unfolding apply_in
apply_in-Triple request fixed invocation =
    Triple-bind _ _
      (read (λ o. IsSingle o × (some invocation ≡ o.current_invocation)) IsSingle (λ s. s.view))
      λ before.
        let P : Provider → Type 0 = InInterval invocation before in
        Triple-bind _ _
          (Triple-pre _ (λ s h. (h.0.0, h.0.1, h.1))
            (read P IsSingle (new_entry request fixed false invocation)))
          λ entry.
            Triple-bind _ _
              (Triple-pre _ (λ s h. h.0)
                (write P IsSingle P (log_action entry)
                  (log_action-InInterval invocation before entry)))
              λ _.
                Triple-bind _ _
                  (frame P IsSingle (in_journal (retain _ (Record.action entry)))
                    (in_journal-own P _) (λ o h. h.0))
                  λ _.
                    Triple-bind _ _
                      (write P IsSingle IsSingle _
                        (set_view-IsSingle request fixed invocation before))
                      λ _. Triple-keeps _ (Keeps-pure entry)

apply_at-Triple :
    (request : ActionRequest) (fixed : FixedInput) (now : Option String) (closed : Bool)
    → Triple
        (λ s. I s × (now ≡ s.own.current_invocation))
        (apply_at request fixed false now closed)
        (λ a. I)
        I
unfolding apply_at
apply_at-Triple request fixed none closed = Triple-pre _ (λ s h. h.0) (Triple-raise _)
apply_at-Triple request fixed (some invocation) closed =
    Triple-if closed _ _ (λ _. Triple-pre _ (λ s h. h.0) (Triple-raise _))
      (λ _. apply_in-Triple request fixed invocation)

pub apply-Triple :
    (request : ActionRequest) (fixed : FixedInput) → Triple I (apply request fixed false) (λ a. I) I
unfolding apply
apply-Triple request fixed =
    Triple-bind _ _ (read IsSingle IsSingle (λ s. s.current_invocation)) λ now.
      Triple-bind _ _
        (read (λ o. IsSingle o × (now ≡ o.current_invocation)) IsSingle (λ s. s.closed))
        λ closed. Triple-pre _ (λ s h. h.0) (apply_at-Triple request fixed now closed)
