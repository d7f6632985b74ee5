-- ===== src/Listener/Loop/Safety.antt =====
-- Whatever happens, the stream that the loop sends is contiguous.
pub mod Upkeep
pub mod Fenced
pub mod Wake
pub mod Jobs
use order_book_server.Base.{
  ℕ, zero, suc, ◌+◌, ◌*◌, ◌%◌, ◌^◌, ◌≤◌, ◌<◌, ◌≡◌, refl, sym, ap, subst, ◌∙◌, inl, inr, arith, Bool,
  true, false, not, ◌&&◌, ◌||◌, Option, none, some, List, [], ◌∷◌, ltb, leb, ◌==◌, if◌then◌else◌,
  is_nil, Eq, nat_eq, ◌>>=◌, Bool-cases, Option-cases, length,
}
use order_book_server.Base.Result.{Result, ok, err}
use order_book_server.Queue.{QueueApi}
use order_book_server.OrderBook.Types.{Text}
use order_book_server.Orders.{InnerL4Order, l4_order}
use order_book_server.Ingestion.Limits.{ResourceLimits}
use order_book_server.Ingestion.Scoped.{EventSource}
use order_book_server.Ingestion.Retired.{FilePath, path_eq}
use order_book_server.Subscription.{CoinScope}
use order_book_server.Market.State.{OrderBookState}
use order_book_server.Ingestion.Batches.{new_queue}
use order_book_server.Listener.Pairs.Dated.{IsDatedQueue, empty-IsDatedQueue}
use order_book_server.Listener.Lines.Dated.{IsDatedDecoders}
use order_book_server.Listener.{Listener, Pair, Received, take_cache, begin_caching}
use order_book_server.Listener.Recovery.{fence, increased, new_listener, is_ready}
use order_book_server.Listener.Lines.{Decoders}
use order_book_server.Listener.Reconcile.{finish_snapshot}
use order_book_server.Listener.Fetch.{
  Attempt, Task, requested, answered, ended, Loaded, request_done, give_up, parse_done, with_result,
  start, answer, finish,
}
use order_book_server.Listener.Stream.{
  Contiguous, position, Chain, Tracks, Moved, Phase, StandsAt, IsSound, IsBroken, IsSound-IsBroken,
  fence-IsSound, weaken,
}
use order_book_server.Listener.Stream.Committed.{finish_snapshot-Settled}
use order_book_server.Listener.Stream.Committed.Replaced.{let_go}
use order_book_server.Listener.Loop.{
  Surroundings, Job, spawned, running, Loop, attach, retain, push_needing, pending_bytes, fence_if,
}
use order_book_server.Listener.Loop.Turns.{
  cache_expired, expire_cache, measured, queues_expired, on_maintenance, on_joined, on_tick,
  on_notice, LoopEvent, notice, wake, maintenance, tick, job_starts, node_answers, job_finishes,
  joined, job_panics, with_task, start_job, answer_job, finish_job, join_job, panic_job, turn,
  turns, spawn_if, count, Notice, created_paths, modified_paths, other_event, watch_error,
}
use order_book_server.Listener.Loop.Safety.Wake.{on_wake-Woken}
use order_book_server.Listener.Loop.Safety.Jobs.{
  start_job-IsSafe, answer_job-IsSafe, finish_job-IsSafe, join_job-IsSafe, panic_job-IsSafe,
}
use order_book_server.Listener.Loop.Safety.Upkeep.{
  attempt_of, IsSafe, on_notice-IsSafe, on_tick-IsSafe, on_maintenance-IsSafe,
}

module _ {A : Type 0} ⦃e : Eq (InnerL4Order A)⦄ (log10_floor : ℕ → ℕ) (parse : Text → Option ℕ)
    (decoders : Decoders A) ⦃laws : IsDatedDecoders decoders⦄ (valid_utf8 : List ℕ → Bool)
    (roots : List (FilePath × EventSource)) (api : QueueApi ℕ (InnerL4Order A)) where
  -- At most five fences to a turn.
  pub turn-IsSafe :
      (n : ℕ) (event : LoopEvent api) (s s' : Loop api)
      → n + 1 < 2 ^ 64
      → IsSafe api n s
      → turn log10_floor parse decoders valid_utf8 roots api event s ≡ some s'
      → IsSafe api (n + 6) s'
  unfolding turn
  turn-IsSafe n (notice event) s s' few safe ran =
      let same : on_notice api event s ≡ s' = cc in
      subst (IsSafe api (n + 6)) same
        (weaken api n (n + 6) _ _ (omega arith) (on_notice-IsSafe api n event s safe))
  turn-IsSafe n (wake env) s s' few safe ran =
      let (sound, same) =
        on_wake-Woken log10_floor parse decoders valid_utf8 api (attempt_of api s.job) n env roots s
          s' safe ran in
      weaken api (n + 1 + 5) (n + 6) _ _ (omega arith) (
        subst (λ (t : Option (Job api)). IsSound api (n + 1 + 5) (attempt_of api t) s'.listener)
          (sym same) sound)
  turn-IsSafe n (maintenance env) s s' few safe ran =
      let same : on_maintenance api env s ≡ s' = cc in
      subst (IsSafe api (n + 6)) same
        (weaken api (n + 1) (n + 6) _ _ (omega arith) (on_maintenance-IsSafe api n env s safe))
  turn-IsSafe n tick s s' few safe ran =
      let same : on_tick api s ≡ s' = cc in
      subst (IsSafe api (n + 6)) same
        (weaken api n (n + 6) _ _ (omega arith) (on_tick-IsSafe api n s safe))
  turn-IsSafe n (job_starts now clone_ms now_ms) s s' few safe ran =
      let same : start_job log10_floor parse decoders valid_utf8 roots api s now clone_ms now_ms
            s.job
          ≡ s' =
        cc in
      subst (IsSafe api (n + 6)) same (
        weaken api n (n + 6) _ _ (omega arith) (
          start_job-IsSafe log10_floor parse decoders valid_utf8 roots api n s now clone_ms now_ms
            s.job refl safe))
  turn-IsSafe n (node_answers written ms at) s s' few safe ran =
      let same : answer_job log10_floor parse decoders valid_utf8 roots api s written ms at s.job
          ≡ s' =
        cc in
      subst (IsSafe api (n + 6)) same (
        weaken api n (n + 6) _ _ (omega arith) (
          answer_job-IsSafe log10_floor parse decoders valid_utf8 roots api n s written ms at s.job
            refl safe))
  turn-IsSafe n (job_finishes loaded parse_ms ms) s s' few safe ran =
      weaken api n (n + 6) _ _ (omega arith) (
        finish_job-IsSafe log10_floor parse decoders valid_utf8 roots api n s s' loaded parse_ms ms
          s.job few refl safe ran)
  turn-IsSafe n (joined now) s s' few safe ran =
      let same : join_job log10_floor parse decoders valid_utf8 roots api s now s.job ≡ s' = cc in
      subst (IsSafe api (n + 6)) same (
        weaken api (n + 1) (n + 6) _ _ (omega arith)
          (join_job-IsSafe log10_floor parse decoders valid_utf8 roots api n s now s.job refl safe))
  turn-IsSafe n (job_panics now) s s' few safe ran =
      let same : panic_job log10_floor parse decoders valid_utf8 roots api s now s.job ≡ s' = cc in
      subst (IsSafe api (n + 6)) same (
        weaken api (n + 1) (n + 6) _ _ (omega arith) (
          panic_job-IsSafe log10_floor parse decoders valid_utf8 roots api n s now s.job refl safe))

  turns-IsSafe :
      (n : ℕ) (events : List (LoopEvent api)) (s s' : Loop api)
      → n + 6 * length events < 2 ^ 64
      → IsSafe api n s
      → turns log10_floor parse decoders valid_utf8 roots api events s ≡ some s'
      → IsSafe api (n + 6 * length events) s'
  unfolding turns
  turns-IsSafe n [] s s' few safe ran =
      let same : s ≡ s' = cc in
      subst (IsSafe api (n + 6 * 0)) same (weaken api n (n + 6 * 0) _ _ (omega arith) safe)
  turns-IsSafe n (event ∷ events) s s' few safe ran =
      elim (Option-cases (turn log10_floor parse decoders valid_utf8 roots api event s)) [
        | inl panics ↦ absurd (ground arith)
        | inr (t, gives) ↦
            weaken api (n + 6 + 6 * length events) (n + 6 * length (event ∷ events)) _ _
              (omega arith)
              (turns-IsSafe (n + 6) events t s' (omega arith)
                (turn-IsSafe n event s t (omega arith) safe gives)
                (sym (
                    ap
                      (λ (t : Option (Loop api)).
                        t >>= λ s'. turns log10_floor parse decoders valid_utf8 roots api events s')
                      gives)
                  ∙ ran))
      ]

  -- The stream that was sent is contiguous, and the state, where there is one, stands at its end.
  pub record Streams (l : Listener api) : Type 0 where
    pub contiguous : Contiguous none l.sent
    pub stands : StandsAt api l.order_book_state (position none l.sent)

  pub turns-Streams :
      (events : List (LoopEvent api)) (ignore_spot : Bool) (scope : CoinScope)
      (limits : ResourceLimits) (now : ℕ) (s : Loop api)
      → limits.turn_bytes < 2 ^ 63
      → 6 * length events < 2 ^ 64
      → turns log10_floor parse decoders valid_utf8 roots api events
          (attach api (new_listener api true ignore_spot scope) limits now)
        ≡ some s
      → Streams s.listener
  unfolding attach new_listener new_queue
  turns-Streams events ignore_spot scope limits now s small few ran =
      let safe =
        turns-IsSafe 0 events (attach api (new_listener api true ignore_spot scope) limits now) s
          (omega arith)
          (record {
            sends = (refl, small);
            contiguous = tt;
            stands = refl;
            bounded = omega arith;
            dated = empty-IsDatedQueue;
            phase = tt;
          })
          ran in
      record { contiguous = safe.contiguous; stands = safe.stands }
