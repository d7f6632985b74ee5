-- ===== src/Listener/Loop/Safety/Upkeep.antt =====
-- The maintenance, the ticks, the notices and the parsed answer keep the stream contiguous.
use order_book_server.Base.{
  ℕ, ◌+◌, ◌≡◌, refl, subst, inl, inr, arith, Bool, true, false, not, ◌&&◌, Option, none, some, [],
  leb, ◌==◌, nat_eq, Bool-cases,
}
use order_book_server.Base.Result.{Result, ok, err}
use order_book_server.Queue.{QueueApi}
use order_book_server.Orders.{InnerL4Order, l4_order}
use order_book_server.Ingestion.Retired.{path_eq}
use order_book_server.Market.State.{OrderBookState}
use order_book_server.Listener.{Listener, take_cache, begin_caching}
use order_book_server.Listener.Recovery.{increased, is_ready}
use order_book_server.Listener.Fetch.{
  Attempt, Task, requested, answered, ended, request_done, give_up, parse_done, start, answer,
}
use order_book_server.Listener.Stream.{
  Tracks, Phase, IsSound, IsSound-IsBroken, fence-IsSound, weaken,
}
use order_book_server.Listener.Loop.{
  Surroundings, Job, spawned, running, Loop, retain, push_needing, pending_bytes, fence_if,
}
use order_book_server.Listener.Loop.Turns.{
  cache_expired, expire_cache, measured, queues_expired, on_maintenance, on_joined, on_tick,
  on_notice, spawn_if, count, Notice, created_paths, modified_paths, other_event, watch_error,
}
use order_book_server.Listener.Loop.Safety.Fenced.{fence_if-IsSound}

-- The attempt of a job that may still change the listener.
abbrev pub task_attempt :
    {A : Type 0} (api : QueueApi ℕ (InnerL4Order A)) → Task api → Option (Attempt api)
task_attempt api (requested a) = some a
task_attempt api (answered a) = some a
task_attempt api (ended r) = none

abbrev pub attempt_of :
    {A : Type 0} (api : QueueApi ℕ (InnerL4Order A)) → Option (Job api) → Option (Attempt api)
attempt_of api none = none
attempt_of api (some spawned) = none
attempt_of api (some (running task)) = task_attempt api task

module _ {A : Type 0} (api : QueueApi ℕ (InnerL4Order A)) where
  abbrev pub IsSafe : ℕ → Loop api → Type 0
  IsSafe n s = IsSound api n (attempt_of api s.job) s.listener

  unfoldable pub TaskSafe : ℕ → Listener api × Task api → Type 0
  TaskSafe n (l, task) = IsSound api n (task_attempt api task) l

  Tracks-self : (state : Option (OrderBookState api)) → Tracks api state state (some [])
  Tracks-self none = tt
  Tracks-self (some b) = refl

  pub start-TaskSafe :
      (n : ℕ) (l : Listener api) (now clone_ms now_ms : ℕ)
      → IsSound api n none l
      → TaskSafe n (start api l now clone_ms now_ms)
  unfolding start begin_caching TaskSafe
  start-TaskSafe n l now clone_ms now_ms s = record {
    sends = s.sends;
    contiguous = s.contiguous;
    stands = s.stands;
    bounded = s.bounded;
    dated = s.dated;
    phase = inl ((s.bounded, omega (arith, s.bounded)), Tracks-self l.order_book_state);
  }

  -- Only the statistics changed, or the cache of an attempt that is over.
  pub give_up-IsSound :
      (n : ℕ) (a : Option (Attempt api)) (l : Listener api)
      → IsSound api n a l
      → IsSound api n none (give_up api l)
  unfolding give_up take_cache
  give_up-IsSound n a l s = record {
    sends = s.sends;
    contiguous = s.contiguous;
    stands = s.stands;
    bounded = s.bounded;
    dated = s.dated;
    phase = tt;
  }

  request_done-IsSound :
      (n : ℕ) (t : Option (Attempt api)) (l : Listener api) (a : Attempt api) (ms at : ℕ)
      → IsSound api n t l
      → IsSound api n t (request_done api l a ms at)
  request_done-IsSound n t l a ms at s = record {
    sends = s.sends;
    contiguous = s.contiguous;
    stands = s.stands;
    bounded = s.bounded;
    dated = s.dated;
    phase = s.phase;
  }

  pub parse_done-IsSound :
      (n : ℕ) (a : Option (Attempt api)) (l : Listener api) (parse_ms : ℕ)
      → IsSound api n a l
      → IsSound api n a (parse_done api l parse_ms)
  parse_done-IsSound n a l parse_ms s = record {
    sends = s.sends;
    contiguous = s.contiguous;
    stands = s.stands;
    bounded = s.bounded;
    dated = s.dated;
    phase = s.phase;
  }

  drop_attempt :
      (n : ℕ) (a : Option (Attempt api)) (l : Listener api)
      → IsSound api n a l
      → IsSound api n none l
  drop_attempt n a l s = record {
    sends = s.sends;
    contiguous = s.contiguous;
    stands = s.stands;
    bounded = s.bounded;
    dated = s.dated;
    phase = tt;
  }

  pub answer-TaskSafe :
      (n : ℕ) (l : Listener api) (a : Attempt api) (written : Bool) (ms at : ℕ)
      → IsSound api n (some a) l
      → TaskSafe n (answer api l a written ms at)
  unfolding answer TaskSafe
  answer-TaskSafe n l a false ms at s =
      give_up-IsSound n (some a) (request_done api l a ms at)
        (request_done-IsSound n (some a) l a ms at s)
  answer-TaskSafe n l a true ms at s = elim (Bool-cases (l.recovery_epoch == a.epoch)) [
    | inl fresh ↦ rw fresh (request_done-IsSound n (some a) l a ms at s)
    | inr stale ↦ rw stale (
        drop_attempt n (some a) (request_done api l a ms at)
          (request_done-IsSound n (some a) l a ms at s))
  ]

  expire_cache-IsSound :
      (n : ℕ) (a : Option (Attempt api)) (l : Listener api) (now : ℕ)
      → IsSound api n a l
      → IsSound api n a (expire_cache api l now)
  unfolding expire_cache take_cache
  expire_cache-IsSound n a l now s =
      elim (Bool-cases (cache_expired api l now l.snapshot_cache_started)) [
        | inr young ↦ rw young s
        | inl old ↦ rw old (record {
          sends = s.sends;
          contiguous = s.contiguous;
          stands = s.stands;
          bounded = omega arith;
          dated = s.dated;
          phase = expired_phase a s.phase old;
        })
      ]
    where
      expired_phase :
          (a : Option (Attempt api))
          → Phase api n a l.recovery_epoch l.order_book_state l.fetched_snapshot_cache
              l.snapshot_cache_started
          → cache_expired api l now l.snapshot_cache_started ≡ true
          → Phase api n a (increased l.recovery_epoch) l.order_book_state none none
      expired_phase none phase old = tt
      expired_phase (some a) (inl (moved, tracks)) old =
          inr (1, omega arith, omega arith, (moved.0, omega (arith, moved.1)), refl, refl)
      expired_phase (some a) (inr (k, pos, low, moved, empty, off)) old =
          absurd (impossible (subst (λ (t : Option ℕ). cache_expired api l now t ≡ true) off old))
        where
          impossible : cache_expired api l now none ≡ true → ⊥
          impossible h = cc

  spawn_if-attempt :
      (b : Bool) (job : Option (Job api)) → attempt_of api job ≡ attempt_of api (spawn_if api b job)
  spawn_if-attempt true none = refl
  spawn_if-attempt false none = refl
  spawn_if-attempt b (some job) = refl

  measured-IsSound :
      (n : ℕ) (a : Option (Attempt api)) (l : Listener api) (pending dirty : ℕ)
      → IsSound api n a l
      → IsSound api n a (measured api l pending dirty)
  measured-IsSound n a l pending dirty s = record {
    sends = s.sends;
    contiguous = s.contiguous;
    stands = s.stands;
    bounded = s.bounded;
    dated = s.dated;
    phase = s.phase;
  }

  pub on_maintenance-IsSafe :
      (n : ℕ) (env : Surroundings) (s : Loop api)
      → IsSafe n s
      → IsSafe (n + 1) (on_maintenance api env s)
  unfolding on_maintenance
  on_maintenance-IsSafe n env s safe =
      let now = env.files.now in
      let a = attempt_of api s.job in
      let cursors = retain env s.cursors in
      let dirty = push_needing env.files cursors s.dirty in
      let m = measured api s.listener (pending_bytes env.files cursors) (count api dirty.paths) in
      let l = expire_cache api m now in
      let l' = fence_if api (queues_expired api l now) l in
      subst (λ (t : Option (Attempt api)). IsSound api (n + 1) t l')
        (spawn_if-attempt (not (is_ready api l') && leb s.recovery_retry_at now) s.job)
        (fence_if-IsSound api a n (queues_expired api l now) l (
          expire_cache-IsSound n a m now (
            measured-IsSound n a s.listener (pending_bytes env.files cursors)
              (count api dirty.paths) safe)))

  pub on_joined-IsSafe :
      (n : ℕ) (r : Result Bool (Unit {0})) (now : ℕ) (s : Loop api) (a : Option (Attempt api))
      → IsSound api n a s.listener
      → IsSafe (n + 1) (on_joined api r now s)
  unfolding on_joined
  on_joined-IsSafe n (ok _) now s a sound =
      weaken api n (n + 1) none s.listener (omega arith) (drop_attempt n a s.listener sound)
  on_joined-IsSafe n (err panicked) now s a sound =
      fence-IsSound api n none s.listener
        (IsSound-IsBroken api n none s.listener (drop_attempt n a s.listener sound))

  pub on_notice-IsSafe :
      (n : ℕ) (event : Notice) (s : Loop api) → IsSafe n s → IsSafe n (on_notice api event s)
  unfolding on_notice
  on_notice-IsSafe n (created_paths paths) s safe = safe
  on_notice-IsSafe n (modified_paths paths) s safe = safe
  on_notice-IsSafe n other_event s safe = safe
  on_notice-IsSafe n watch_error s safe = safe

  pub on_tick-IsSafe : (n : ℕ) (s : Loop api) → IsSafe n s → IsSafe n (on_tick api s)
  unfolding on_tick
  on_tick-IsSafe n s safe =
      subst (λ (t : Option (Attempt api)). IsSound api n t s.listener) (spawn_if-attempt true s.job)
        safe
