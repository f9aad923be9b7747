-- ===== src/Receipt.antt =====
-- cardinal/receipt/receipt.go: the receipts of the last ticks, in a ring of maps. A hash is a text;
-- results and errors are of any type.
pub mod Ring
pub mod Tests
use world_engine.Base.{
  ℕ, suc, ◌+◌, ◌-◌, ◌%◌, ◌^◌, String, List, [], ◌∷◌, ◌++◌, Bool, true, false, Option, none, some,
  if◌then◌else◌, nat_eq, string_eq, ◌==◌, get_elem?, set, replicate, leb,
}
use world_engine.Base.GoMap.{GoMap, lookup, insert, values}
use world_engine.Base.Exec.{Result, ok, err}

pub data ReceiptError : Type 0 where
  tick_has_not_been_processed old_tick_has_been_discarded : ReceiptError

-- `result` is `none` for nil.
pub record Receipt (Any Err : Type 0) : Type 0 where
  pub tx_hash : String
  pub result : Option Any
  pub errs : List Err

abbrev pub Receipts : Type 0 → Type 0 → Type 0
Receipts Any Err = GoMap String (Receipt Any Err)

pub record History (Any Err : Type 0) : Type 0 where
  pub curr_tick : ℕ
  pub ticks_to_store : ℕ
  pub history : List (Receipts Any Err)

module _ {Any Err : Type 0} where
  -- One place more than the ticks to store, for the current tick.
  unfoldable pub new_history : ℕ → ℕ → History Any Err
  new_history current_tick ticks_to_store = record {
    curr_tick = current_tick;
    ticks_to_store = ticks_to_store + 1;
    history = replicate (ticks_to_store + 1) [];
  }

  unfoldable pub size : History Any Err → ℕ
  size h = h.ticks_to_store

  -- `h.history[i]`; every index here is below the length.
  abbrev pub or_empty : Option (Receipts Any Err) → Receipts Any Err
  or_empty none = []
  or_empty (some recs) = recs

  abbrev pub at : ℕ → History Any Err → Receipts Any Err
  at i h = or_empty (get_elem? h.history i)

  unfoldable pub next_tick : History Any Err → History Any Err
  next_tick h =
      let new_curr = (h.curr_tick + 1) % 2 ^ 64 in
      record h { curr_tick = new_curr; history = set h.history (new_curr % h.ticks_to_store) [] }

  unfoldable pub set_tick : ℕ → History Any Err → History Any Err
  set_tick tick h = record h { curr_tick = tick }

  -- `h.history[tick][hash]`, which is the zero Receipt for a missing key
  abbrev pub or_zero : Option (Receipt Any Err) → Receipt Any Err
  or_zero none = record { tx_hash = ""; result = none; errs = [] }
  or_zero (some rec) = rec

  unfoldable pub add_error : String → Err → History Any Err → History Any Err
  add_error hash error h =
      let tick = h.curr_tick % h.ticks_to_store in
      let rec = or_zero (lookup hash (at tick h)) in
      record h {
        history = set h.history tick (
            insert hash (record rec { tx_hash = hash; errs = rec.errs ++ error ∷ [] }) (at tick h));
      }

  unfoldable pub set_result : String → Any → History Any Err → History Any Err
  set_result hash result h =
      let tick = h.curr_tick % h.ticks_to_store in
      let rec = or_zero (lookup hash (at tick h)) in
      record h {
        history =
            set h.history tick
              (insert hash (record rec { tx_hash = hash; result = some result }) (at tick h));
      }

  unfoldable pub get_receipt : String → History Any Err → Option (Receipt Any Err)
  get_receipt hash h = lookup hash (at (h.curr_tick % h.ticks_to_store) h)

  unfoldable pub get_receipts_for_tick :
      ℕ → History Any Err → Result ReceiptError (List (Receipt Any Err))
  get_receipts_for_tick tick h =
      if leb h.curr_tick tick
      then err tick_has_not_been_processed
      else if leb h.ticks_to_store (h.curr_tick - tick)
      then err old_tick_has_been_discarded
      else ok (values (at (tick % h.ticks_to_store) h))
