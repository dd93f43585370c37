-- ===== src/Journal/Steps.antt =====
-- src/gsrr_slice01/journal.py: a run as a sequence of calls of the journal's methods, each with any
-- arguments and with any result.
use gsrr_agent_harness.Prelude.{String, ◌≡◌, Bool, Option, some, List}
use gsrr_agent_harness.Contracts.Results.{ProjectionDecision, RuntimeEvent}
use gsrr_agent_harness.Contracts.Record.{Record}
use gsrr_agent_harness.Journal.Defs.{Journal, new_id, lookup, retain, reserve}
use gsrr_agent_harness.Journal.Event.{EventCall, event}
use gsrr_agent_harness.Journal.Publish.{publish}
use gsrr_agent_harness.Journal.Lookup.{lookup-Extends}
use gsrr_agent_harness.Journal.History.{
  IsLater, IsLater-refl, IsLater-trans, new_id-history, retain-history, event-history,
  reserve-history, publish-history,
}

-- The journal after one call, as the next call finds it.
pub data Step (s t : Journal) : Type 0 where
  new_id_call : (kind : String) → t ≡ (new_id kind s).1 → Step s t
  retain_call : (ref : String) (r : Record) → t ≡ (retain ref r s).1 → Step s t
  event_call : (c : EventCall) → t ≡ (event c s).1 → Step s t
  reserve_call :
      (ref : String) (inputs : List String) (fail : Bool)
      → t ≡ (reserve ref inputs fail s).1
      → Step s t
  publish_call :
      (d : ProjectionDecision) (e : Option RuntimeEvent) (new_state : Option String)
      → t ≡ (publish d e new_state s).1
      → Step s t

pub data Reach (s : Journal) : Journal → Type 0 where
  here : Reach s s
  next : {t u : Journal} → Reach s t → Step t u → Reach s u

Step-IsLater : (s t : Journal) → Step s t → IsLater s t
Step-IsLater s t (new_id_call kind e) = rw e ((new_id-history kind).at s)
Step-IsLater s t (retain_call ref r e) = rw e ((retain-history ref r).at s)
Step-IsLater s t (event_call c e) = rw e ((event-history c).at s)
Step-IsLater s t (reserve_call ref inputs fail e) = rw e ((reserve-history ref inputs fail).at s)
Step-IsLater s t (publish_call d e n p) = rw p ((publish-history d e n).at s)

pub Reach-IsLater : {s t : Journal} → Reach s t → IsLater s t
Reach-IsLater {s} here = IsLater-refl s
Reach-IsLater {s} (next {t} {u} r st) = IsLater-trans s t u (Reach-IsLater r) (Step-IsLater t u st)

-- A record that the journal holds under a reference is found under it after any calls of any methods.
pub retained_record_kept :
    (ref : String) (r : Record) {s t : Journal}
    → Reach s t
    → lookup ref s.aggregate.records ≡ some r
    → lookup ref t.aggregate.records ≡ some r
retained_record_kept ref r {s} {t} path h =
    lookup-Extends ref s.aggregate.records t.aggregate.records (Reach-IsLater path).records h
