-- ===== src/Listener/Loop/Safety/Jobs.antt =====
-- The snapshot job keeps the stream contiguous.
use order_book_server.Base.{
  ℕ, ◌+◌, ◌^◌, ◌<◌, ◌≡◌, subst, inl, inr, arith, Bool, true, false, Option, none, some, List, Eq,
  nat_eq, Option-cases,
}
use order_book_server.Base.Result.{ok, err}
use order_book_server.Queue.{QueueApi}
use order_book_server.OrderBook.Types.{Text}
use order_book_server.Orders.{InnerL4Order, l4_order}
use order_book_server.Ingestion.Scoped.{EventSource}
use order_book_server.Ingestion.Retired.{FilePath, path_eq}
use order_book_server.Listener.{Listener}
use order_book_server.Listener.Lines.{Decoders}
use order_book_server.Listener.Reconcile.{finish_snapshot}
use order_book_server.Listener.Fetch.{
  Attempt, Task, requested, answered, ended, Loaded, give_up, parse_done, finish,
}
use order_book_server.Listener.Stream.{IsSound, weaken}
use order_book_server.Listener.Stream.Committed.{finish_snapshot-Settled}
use order_book_server.Listener.Loop.{Job, spawned, running, Loop}
use order_book_server.Listener.Loop.Turns.{start_job, answer_job, finish_job, join_job, panic_job}
use order_book_server.Listener.Loop.Safety.Upkeep.{
  attempt_of, IsSafe, TaskSafe, start-TaskSafe, give_up-IsSound, parse_done-IsSound,
  answer-TaskSafe, on_joined-IsSafe,
}

module _ {A : Type 0} ⦃e : Eq (InnerL4Order A)⦄ (log10_floor : ℕ → ℕ) (parse : Text → Option ℕ)
    (decoders : Decoders A) (valid_utf8 : List ℕ → Bool) (roots : List (FilePath × EventSource))
    (api : QueueApi ℕ (InnerL4Order A)) where
  pub start_job-IsSafe :
      (n : ℕ) (s : Loop api) (now clone_ms now_ms : ℕ) (job : Option (Job api))
      → s.job ≡ job
      → IsSound api n (attempt_of api job) s.listener
      → IsSafe api n
          (start_job log10_floor parse decoders valid_utf8 roots api s now clone_ms now_ms job)
  unfolding TaskSafe
  start_job-IsSafe n s now clone_ms now_ms (some spawned) is sound =
      start-TaskSafe api n s.listener now clone_ms now_ms sound
  start_job-IsSafe n s now clone_ms now_ms none is sound = rw is sound
  start_job-IsSafe n s now clone_ms now_ms (some (running task)) is sound = rw is sound

  pub answer_job-IsSafe :
      (n : ℕ) (s : Loop api) (written : Bool) (ms at : ℕ) (job : Option (Job api))
      → s.job ≡ job
      → IsSound api n (attempt_of api job) s.listener
      → IsSafe api n
          (answer_job log10_floor parse decoders valid_utf8 roots api s written ms at job)
  unfolding TaskSafe
  answer_job-IsSafe n s written ms at (some (running (requested a))) is sound =
      answer-TaskSafe api n s.listener a written ms at sound
  answer_job-IsSafe n s written ms at none is sound = rw is sound
  answer_job-IsSafe n s written ms at (some spawned) is sound = rw is sound
  answer_job-IsSafe n s written ms at (some (running (answered a))) is sound = rw is sound
  answer_job-IsSafe n s written ms at (some (running (ended r))) is sound = rw is sound

  finish-TaskSafe :
      (n : ℕ) (l : Listener api) (a : Attempt api) (loaded : Loaded api) (parse_ms ms : ℕ)
      (out : Listener api × Task api)
      → n + 1 < 2 ^ 64
      → IsSound api n (some a) l
      → finish log10_floor parse api l a loaded parse_ms ms ≡ some out
      → TaskSafe api n out
  unfolding finish TaskSafe
  finish-TaskSafe n l a none parse_ms ms out few s ran =
      let same : (give_up api (parse_done api l parse_ms), ended (ok tt)) ≡ out = cc in
      subst (TaskSafe api n) same (
        give_up-IsSound api n (some a) (parse_done api l parse_ms)
          (parse_done-IsSound api n (some a) l parse_ms s))
  finish-TaskSafe n l a (some (height, expected)) parse_ms ms out few s ran =
      let l' = parse_done api l parse_ms in
      elim (Option-cases
        (finish_snapshot log10_floor parse api l' a.epoch a.state expected height ms)) [
          | inl panics ↦ absurd (ground arith)
          | inr ((l'', r), gives) ↦
              let same : (l'', ended r) ≡ out = ground arith in
              subst (TaskSafe api n) same (
                finish_snapshot-Settled log10_floor parse api n l' a expected height ms (l'', r) few
                  (parse_done-IsSound api n (some a) l parse_ms s) gives)
        ]

  pub finish_job-IsSafe :
      (n : ℕ) (s s' : Loop api) (loaded : Loaded api) (parse_ms ms : ℕ) (job : Option (Job api))
      → n + 1 < 2 ^ 64
      → s.job ≡ job
      → IsSound api n (attempt_of api job) s.listener
      → finish_job log10_floor parse decoders valid_utf8 roots api s loaded parse_ms ms job
        ≡ some s'
      → IsSafe api n s'
  unfolding TaskSafe
  finish_job-IsSafe n s s' loaded parse_ms ms (some (running (answered a))) few is sound ran =
      elim (Option-cases (finish log10_floor parse api s.listener a loaded parse_ms ms)) [
        | inl panics ↦ absurd (ground arith)
        | inr ((l, task), gives) ↦
            let same : record s { listener = l; job = some (running task) } ≡ s' = ground arith in
            subst (IsSafe api n) same
              (finish-TaskSafe n s.listener a loaded parse_ms ms (l, task) few sound gives)
      ]
  finish_job-IsSafe n s s' loaded parse_ms ms none few is sound ran =
      let same : s ≡ s' = cc in subst (IsSafe api n) same (rw is sound)
  finish_job-IsSafe n s s' loaded parse_ms ms (some spawned) few is sound ran =
      let same : s ≡ s' = cc in subst (IsSafe api n) same (rw is sound)
  finish_job-IsSafe n s s' loaded parse_ms ms (some (running (requested a))) few is sound ran =
      let same : s ≡ s' = cc in subst (IsSafe api n) same (rw is sound)
  finish_job-IsSafe n s s' loaded parse_ms ms (some (running (ended r))) few is sound ran =
      let same : s ≡ s' = cc in subst (IsSafe api n) same (rw is sound)

  pub join_job-IsSafe :
      (n : ℕ) (s : Loop api) (now : ℕ) (job : Option (Job api))
      → s.job ≡ job
      → IsSound api n (attempt_of api job) s.listener
      → IsSafe api (n + 1) (join_job log10_floor parse decoders valid_utf8 roots api s now job)
  join_job-IsSafe n s now (some (running (ended (ok _)))) is sound =
      on_joined-IsSafe api n (ok tt) now s none sound
  join_job-IsSafe n s now (some (running (ended (err x)))) is sound =
      on_joined-IsSafe api n (err false) now s none sound
  join_job-IsSafe n s now none is sound =
      weaken api n (n + 1) _ s.listener (omega arith) (rw is sound)
  join_job-IsSafe n s now (some spawned) is sound =
      weaken api n (n + 1) _ s.listener (omega arith) (rw is sound)
  join_job-IsSafe n s now (some (running (requested a))) is sound =
      weaken api n (n + 1) _ s.listener (omega arith) (rw is sound)
  join_job-IsSafe n s now (some (running (answered a))) is sound =
      weaken api n (n + 1) _ s.listener (omega arith) (rw is sound)

  pub panic_job-IsSafe :
      (n : ℕ) (s : Loop api) (now : ℕ) (job : Option (Job api))
      → s.job ≡ job
      → IsSound api n (attempt_of api job) s.listener
      → IsSafe api (n + 1) (panic_job log10_floor parse decoders valid_utf8 roots api s now job)
  panic_job-IsSafe n s now none is sound =
      weaken api n (n + 1) _ s.listener (omega arith) (rw is sound)
  panic_job-IsSafe n s now (some job) is sound =
      on_joined-IsSafe api n (err true) now s (attempt_of api (some job)) sound
