-- ===== src/Sequencer/Held.antt =====
-- Ticks and blocks lose no epoch: what waits and what is stored are the epochs so far.
use world_engine.Base.{
  ℕ, ◌+◌, ◌≤◌, String, List, [], ◌∷◌, ◌++◌, Bool, true, none, ◌≡◌, sym, ap, ◌∙◌, subst,
}
use mathlib.Core.List.{append-nil, append_assoc}
use world_engine.Base.Exec.{Result, ok}
use world_engine.Shard.{Epoch, Kv}
use world_engine.Shard.Reader.{ShardTx}
use world_engine.Shard.Pages.{Ascends, IsOrderedStore}
use world_engine.Shard.Replayed.{submitted-epochs}
use world_engine.TxPool.{TxMap}
use world_engine.Sign.{Transaction}
use world_engine.Sequencer.{submit, flush_tx_queue}
use world_engine.Sequencer.Router.{ProtoTx, tx_blob, proto_map}
use world_engine.Sequencer.Blocks.{next_block, App, prepare_proposal, pre_blocker, submit_msgs}
use world_engine.Sequencer.Pending.{AllBelow, with_current, queue_of}
use world_engine.Sequencer.Flushed.{
  in_order, submit-with_current, all_waiting, flush_tx_queue-all_waiting,
}
use world_engine.Sequencer.Recorded.{
  weaken, append-below, put_all-append, current-append, current-Ascends, current-below, Event, tick,
  block, TicksFrom, recorded, step, run, submit_msgs-submit_all, Ascends-right,
}

module _ {Bytes E : Type 0} (kv : Kv (Epoch (ShardTx Bytes))) (law : IsOrderedStore kv)
    (auth ns : String) (valid_address : String → Bool) (valid : valid_address auth ≡ true)
    (marshal : ProtoTx → Result E Bytes) (encode : ProtoTx → Bytes)
    (marshals : (p : ProtoTx) → marshal p ≡ ok (encode p)) where
  -- The epochs `all`, below `n`, of which some wait.
  record Held (n : ℕ) (all : List (Epoch (ShardTx Bytes))) (app : App kv auth) : Type 0 where
    wait : List (Epoch (ShardTx Bytes))
    queued : app.queue ≡ queue_of ns auth wait
    whole : kv.iterate none (app.keeper.stores ns) ++ wait ≡ all
    ascends : Ascends all
    below : AllBelow n all

  tick-Held :
      {Any H : Type 0} (n m timestamp : ℕ) (all : List (Epoch (ShardTx Bytes)))
      (txs : TxMap Any (Transaction H)) (app : App kv auth)
      → n ≤ m
      → Held n all app
      → Held
          (m + 1)
          (with_current all m timestamp (in_order encode (proto_map txs [])))
          (step kv auth ns valid_address marshal (tick m timestamp txs) app)
  unfolding tx_blob
  tick-Held n m timestamp all txs app le held =
      let stored = kv.iterate none (app.keeper.stores ns) in
      let wait = held.wait in
      let acc = in_order encode (proto_map txs []) in
      let below_m = weaken n m all le held.below in
      let below_wait = append-below m stored wait (subst (AllBelow m) (sym held.whole) below_m) in
      record {
        wait = with_current wait m timestamp acc;
        queued =
            ap (λ q. (submit valid_address marshal (tx_blob ns txs m timestamp) q).1) held.queued
            ∙ ap (λ p. p.1)
                (submit-with_current encode valid_address marshal marshals ns auth valid wait m
                  timestamp below_wait (proto_map txs []));
        whole =
            ap (λ l. stored ++ l) (current-append wait m timestamp acc)
            ∙ sym (append_assoc stored wait _)
            ∙ ap (λ l. l ++ with_current [] m timestamp acc) held.whole
            ∙ sym (current-append all m timestamp acc);
        ascends = current-Ascends all m timestamp acc held.ascends below_m;
        below = current-below all m timestamp acc below_m;
      }

  block-Held :
      (n : ℕ) (all : List (Epoch (ShardTx Bytes))) (app : App kv auth)
      → Held n all app
      → let next = next_block kv auth app in
        Held n all next × (kv.iterate none (next.keeper.stores ns) ≡ all)
  unfolding pre_blocker prepare_proposal
  block-Held n all app held =
      let k = app.keeper in
      let stored = kv.iterate none (k.stores ns) in
      let wait = held.wait in
      let both : Ascends (stored ++ wait) = subst Ascends (sym held.whole) held.ascends in
      let flushed : flush_tx_queue app.queue ≡ (all_waiting ns auth wait, queue_of ns auth []) =
        ap flush_tx_queue held.queued
        ∙ flush_tx_queue-all_waiting ns auth wait (Ascends-right stored wait both) in
      let now : kv.iterate none ((submit_msgs kv auth (flush_tx_queue app.queue).0 k).stores ns)
          ≡ all =
        ap (λ r. kv.iterate none ((submit_msgs kv auth r.0 k).stores ns)) flushed
        ∙ ap (λ m. kv.iterate none (m.stores ns)) (submit_msgs-submit_all kv auth ns wait k)
        ∙ submitted-epochs kv auth ns wait k law
        ∙ put_all-append wait stored both
        ∙ held.whole in
      (
        record {
          wait = [];
          queued = ap (λ r. r.1) flushed;
          whole = append-nil _ ∙ now;
          ascends = held.ascends;
          below = held.below;
        },
        now,
      )

  run-Held :
      {Any H : Type 0} (n : ℕ) (all : List (Epoch (ShardTx Bytes))) (es : List (Event Any H))
      (app : App kv auth)
      → TicksFrom n es
      → Held n all app
      → (k : ℕ) × Held k (all ++ recorded encode es) (run kv auth ns valid_address marshal es app)
  run-Held n all [] app from held = (n, subst (λ l. Held n l app) (sym (append-nil all)) held)
  run-Held n all (block ∷ es) app from held = run-Held n all es _ from (block-Held n all app held).0
  run-Held n all (tick m timestamp txs ∷ es) app (le, from) held =
      let acc = in_order encode (proto_map txs []) in
      let (k, later) =
        run-Held (m + 1) (with_current all m timestamp acc) es _ from
          (tick-Held n m timestamp all txs app le held) in
      (
        k,
        subst (λ l. Held k l (run kv auth ns valid_address marshal (tick m timestamp txs ∷ es) app))
            (ap (λ l. l ++ recorded encode es) (current-append all m timestamp acc)
              ∙ append_assoc all _ _)
            later,
      )

  -- After a block at the end, all that the ticks had is stored.
  pub run-recorded :
      {Any H : Type 0} (es : List (Event Any H)) (app : App kv auth)
      → TicksFrom 0 es
      → app.queue ≡ queue_of ns auth []
      → kv.iterate none (app.keeper.stores ns) ≡ []
      → let last = next_block kv auth (run kv auth ns valid_address marshal es app) in
        (kv.iterate none (last.keeper.stores ns) ≡ recorded encode es)
        × Ascends (recorded encode es)
  run-recorded es app from empty fresh =
      let start : Held 0 [] app = record {
        wait = [];
        queued = empty;
        whole = append-nil _ ∙ fresh;
        ascends = tt;
        below = tt;
      } in
      let (k, held) = run-Held 0 [] es app from start in
      ((block-Held k (recorded encode es) _ held).1, held.ascends)
