-- ===== src/Journal/Growth.antt =====
-- src/gsrr_slice01/journal.py: every call through which the other components change the journal extends
-- its history.
use gsrr_agent_harness.Prelude.{ℕ, Option, String, refl, arith, Extends-refl}
use gsrr_agent_harness.Journal.Defs.{Journal}
use gsrr_agent_harness.Journal.Basic.{Basic, with_refs}
use gsrr_agent_harness.Journal.History.{
  IsLater, history, new_id-history, retain-history, event-history, reserve-history,
}

refs-history :
    (t c : Option String) (a b : Option ℕ) (s : Journal) → IsLater s (with_refs t c a b s)
refs-history t c a b s = record {
  same_run = refl;
  serials = omega arith;
  records = Extends-refl s.aggregate.records;
  events = Extends-refl s.aggregate.events;
}

pub history-Basic : Basic history
history-Basic = record {
  at_new_id = new_id-history;
  at_retain = λ ref r _. retain-history ref r;
  at_event = event-history;
  at_reserve = reserve-history;
  at_refs = refs-history;
}
