-- ===== src/DeliveryTrace.antt =====
-- server/src/servers/delivery_trace.rs: the history of the batches sent on a connection, of which the
-- last 128 are kept. The clock's answers are arguments; the identity and the log are left out.
use order_book_server.Base.{
  ℕ, ◌+◌, ◌-◌, ◌≤◌, ◌≡◌, refl, Option, none, some, List, [], ◌∷◌, ◌++◌, ◌==◌, if◌then◌else◌, length,
  length-append, arith, Bool-cases, inl, inr,
}

pub record BatchTrace : Type 0 where
  pub height : ℕ
  pub source_time_ms : ℕ
  pub started_at_ms : ℕ
  pub completed_at_ms : Option ℕ
  pub flushed_frames : ℕ

pub record DeliveryTrace : Type 0 where
  pub source_peer_port : ℕ
  pub opened_at_ms : ℕ
  pub closed_at_ms : Option ℕ
  pub batches : List BatchTrace

unfoldable pub open_trace : ℕ → ℕ → DeliveryTrace
open_trace source_peer_port now_ms = record {
  source_peer_port = source_peer_port;
  opened_at_ms = now_ms;
  closed_at_ms = none;
  batches = [];
}

-- `pop_front`
abbrev pub tail : List BatchTrace → List BatchTrace
tail [] = []
tail (b ∷ batches) = batches

unfoldable pub begin : DeliveryTrace → ℕ → ℕ → ℕ → DeliveryTrace
begin t height source_time_ms now_ms =
    let kept = if length t.batches == 128 then tail t.batches else t.batches in
    record t {
      batches =
          kept
          ++ record {
            height = height;
            source_time_ms = source_time_ms;
            started_at_ms = now_ms;
            completed_at_ms = none;
            flushed_frames = 0;
          }
            ∷ [];
    }

-- a change of `back_mut`
abbrev pub at_back : (BatchTrace → BatchTrace) → List BatchTrace → List BatchTrace
at_back f [] = []
at_back f (b ∷ []) = f b ∷ []
at_back f (b ∷ c ∷ batches) = b ∷ at_back f (c ∷ batches)

unfoldable pub sent : DeliveryTrace → DeliveryTrace
sent t = record t {
  batches = at_back (λ b. record b { flushed_frames = b.flushed_frames + 1 }) t.batches;
}

unfoldable pub complete : DeliveryTrace → ℕ → DeliveryTrace
complete t now_ms = record t {
  batches = at_back (λ b. record b { completed_at_ms = some now_ms }) t.batches;
}

-- What a connection does with its trace.
pub data Event : Type 0 where
  begun : ℕ → ℕ → ℕ → Event
  flushed : Event
  completed : ℕ → Event

abbrev pub run_events : DeliveryTrace → List Event → DeliveryTrace
run_events t [] = t
run_events t (begun height source_time_ms now_ms ∷ events) =
    run_events (begin t height source_time_ms now_ms) events
run_events t (flushed ∷ events) = run_events (sent t) events
run_events t (completed now_ms ∷ events) = run_events (complete t now_ms) events

length-at_back :
    (f : BatchTrace → BatchTrace) (bs : List BatchTrace) → length (at_back f bs) ≡ length bs
length-at_back f [] = refl
length-at_back f (b ∷ []) = refl
length-at_back f (b ∷ c ∷ bs) = omega (arith, length-at_back f (c ∷ bs))

length-tail : (bs : List BatchTrace) → length (tail bs) ≡ length bs - 1
length-tail [] = omega arith
length-tail (b ∷ bs) = omega arith

begin-bound :
    (t : DeliveryTrace) (height source_time_ms now_ms : ℕ)
    → length t.batches ≤ 128
    → length (begin t height source_time_ms now_ms).batches ≤ 128
unfolding begin
begin-bound t height source_time_ms now_ms few = elim (Bool-cases (length t.batches == 128)) [
  | inl full ↦ rw full (
      omega (
        arith,
        length-append (tail t.batches) (
            record {
              height = height;
              source_time_ms = source_time_ms;
              started_at_ms = now_ms;
              completed_at_ms = none;
              flushed_frames = 0;
            }
            ∷ []),
        length-tail t.batches,
      ))
  | inr room ↦ rw room (
      ground (
        arith,
        length-append t.batches (
            record {
              height = height;
              source_time_ms = source_time_ms;
              started_at_ms = now_ms;
              completed_at_ms = none;
              flushed_frames = 0;
            }
            ∷ []),
      ))
]

-- Whatever a connection does with a trace of at most 128 batches, the trace has at most 128 batches.
pub run_events-bound :
    (t : DeliveryTrace) (events : List Event)
    → length t.batches ≤ 128
    → length (run_events t events).batches ≤ 128
unfolding sent complete
run_events-bound t [] few = few
run_events-bound t (begun height source_time_ms now_ms ∷ events) few =
    run_events-bound (begin t height source_time_ms now_ms) events
      (begin-bound t height source_time_ms now_ms few)
run_events-bound t (flushed ∷ events) few = run_events-bound (sent t) events (
    omega (
      arith,
      few,
      length-at_back (λ b. record b { flushed_frames = b.flushed_frames + 1 }) t.batches,
    ))
run_events-bound t (completed now_ms ∷ events) few =
    run_events-bound (complete t now_ms) events (
      omega
        (arith, few, length-at_back (λ b. record b { completed_at_ms = some now_ms }) t.batches))
