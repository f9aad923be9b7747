-- ===== src/Receipt/Tests.antt =====
-- Tests of the receipt history.
use world_engine.Base.{ℕ, ◌+◌, ◌<◌, ◌^◌, ◌%◌, String, ◌≡◌, List, [], ◌∷◌, arith, if◌then◌else◌, leb}
use world_engine.Base.GoMap.{values}
use world_engine.Base.Exec.{ok, err}
use world_engine.Receipt.{
  History, at, new_history, get_receipts_for_tick, next_tick, tick_has_not_been_processed,
  old_tick_has_been_discarded,
}
use world_engine.Receipt.Ring.{
  Event, fails, returns, ticks, run, advances, new_history-IsRing, receipts_window,
}

abbrev history : History ℕ String
history = new_history 7 2

abbrev events : List (Event ℕ String)
events = returns "0x1" 5 ∷ ticks ∷ fails "0x2" "no" ∷ []

small : history.curr_tick + 1 + advances events < 2 ^ 64
unfolding new_history
small = omega arith

receipts_window_example :
    (get_receipts_for_tick history.curr_tick history ≡ err tick_has_not_been_processed)
    × (get_receipts_for_tick history.curr_tick (run events (next_tick history)) ≡ (
        if leb history.ticks_to_store (1 + advances events)
        then err old_tick_has_been_discarded
        else ok (values (at (history.curr_tick % history.ticks_to_store) history))))
receipts_window_example = receipts_window events history small (new_history-IsRing 7 2)
