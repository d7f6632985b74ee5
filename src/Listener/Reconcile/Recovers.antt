-- ===== src/Listener/Reconcile/Recovers.antt =====
-- A listener that waits for a snapshot is ready once one comes, or a block that it queued fails.
pub mod Queues
use order_book_server.Base.{
  zero, suc, ◌≤◌, sym, ap, subst, ◌∙◌, ◌⊎◌, inl, inr, false, ◌>>=◌, Option-cases, nat_eq,
}
use order_book_server.Base.Result.{Result, err}
use order_book_server.Orders.{l4_order, NodeDataOrderDiff}
use order_book_server.Market.State.{OrderBookState, ApplyError, apply_updates}
use order_book_server.Market.Blocks.{Applied, apply_updates-Applied}
use order_book_server.Listener.{Listener, Popped, take_pair, pop_cache, enough}
use order_book_server.Listener.Recovery.{
  Replayed, after_replay, replay_pair, replay, after_init, init_from_snapshot,
}
use order_book_server.Listener.Pairs.Taken.{IsTakenFrom, pop_cache-IsTakenFrom}
use order_book_server.Listener.Reconcile.Recovers.Queues.{Recovers}
