-- ===== src/Journal/Sharing.antt =====
-- The methods of the objects that hold the run's journal: what each of them does to the journal is
-- made of the journal's basic calls.
use gsrr_agent_harness.Prelude.{String}
use gsrr_agent_harness.Exec.{Exec, gets}
use gsrr_agent_harness.Exec.Keeps.{Order, Keeps, Keeps-gets, keeps_rules}
use gsrr_agent_harness.Shared.{
  Shared, in_journal, in_journal-journal, own_gets, own_modify, own_modify-journal, journal_order,
}
use gsrr_agent_harness.Journal.Defs.{Journal, new_id, retain, get}
use gsrr_agent_harness.Contracts.Record.{Record}
use gsrr_agent_harness.Journal.Event.{EventCall, event}
use gsrr_agent_harness.Journal.Basic.{Basic, IsPlain, Journaled, get-Keeps}

-- A method that changes the journal it shares by basic calls alone.
abbrev pub JournaledIn : {S A : Type 0} → Exec (Shared S) A → Type 1
JournaledIn m = (q : Order Journal) → Basic q → Keeps (journal_order q) m

module _ {S : Type 0} where
  pub own_modify-JournaledIn : (f : S → S) → JournaledIn (own_modify f)
  own_modify-JournaledIn f q b = own_modify-journal q f

module _ {S A : Type 0} where
  pub in_journal-JournaledIn :
      (m : Exec Journal A) → Journaled m → JournaledIn (in_journal {S = S} m)
  in_journal-JournaledIn m k q b = in_journal-journal q m (k q b)

  pub own_gets-JournaledIn : (f : S → A) → JournaledIn (own_gets f)
  unfolding own_gets
  own_gets-JournaledIn f q b = Keeps-gets _

  pub gets-JournaledIn : (f : Journal → A) → JournaledIn (in_journal {S = S} (gets f))
  gets-JournaledIn f q b = in_journal-journal q (gets f) (Keeps-gets f)

module _ {S : Type 0} where
  pub new_id-JournaledIn : (kind : String) → JournaledIn (in_journal {S = S} (new_id kind))
  new_id-JournaledIn kind q b = in_journal-journal q _ (b.at_new_id kind)

  pub retain-JournaledIn :
      (ref : String) (r : Record) → IsPlain r → JournaledIn (in_journal {S = S} (retain ref r))
  retain-JournaledIn ref r plain q b = in_journal-journal q _ (b.at_retain ref r plain)

  pub get-JournaledIn : (ref : String) → JournaledIn (in_journal {S = S} (get ref))
  get-JournaledIn ref q b = in_journal-journal q _ (get-Keeps q ref)

  pub event-JournaledIn : (c : EventCall) → JournaledIn (in_journal {S = S} (event c))
  event-JournaledIn c q b = in_journal-journal q _ (b.at_event c)

pub ruleset sharing_rules = (
  keeps_rules, own_modify-JournaledIn, own_gets-JournaledIn, gets-JournaledIn, new_id-JournaledIn,
  retain-JournaledIn, get-JournaledIn, event-JournaledIn,
)
