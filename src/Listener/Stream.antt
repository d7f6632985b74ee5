-- ===== src/Listener/Stream.antt =====
-- The stream of messages that the listener of server/src/listeners/order_book/mod.rs sends, and what
-- it knows of the stream while it runs.

pub mod Receive
pub mod Views
pub mod Records
pub mod Recovered
pub mod Committed
use order_book_server.Base.{
  ℕ, ◌+◌, ◌%◌, ◌^◌, ◌≤◌, ◌<◌, ◌≡◌, refl, sym, ap, subst, ◌∙◌, ◌⊎◌, inl, inr, arith, true, Option,
  none, some, List, [], ◌∷◌, ◌++◌, if◌then◌else◌, nat_eq,
}
use order_book_server.Queue.{QueueApi}
use order_book_server.Orders.{InnerL4Order, l4_order}
use order_book_server.Market.State.{OrderBookState}
use order_book_server.Listener.{
  Listener, Pair, Message, gap, snapshot, fills, l4_book_updates, send,
}
use order_book_server.Listener.Recovery.{fence, increased}
use order_book_server.Listener.Fetch.{Attempt}
use order_book_server.Ingestion.Batches.{new_queue}
use order_book_server.Listener.Pairs.Dated.{IsPair, IsDatedQueue, empty-IsDatedQueue}

-- The block that a consumer of the stream has come to; a gap makes it start again.
abbrev pub position_after : {A : Type 0} → Option ℕ → Message A → Option ℕ
position_after p gap = none
position_after p (snapshot views time height) = some height
position_after p (fills batch) = p
position_after p (l4_book_updates diffs statuses) = some statuses.block_number

abbrev pub position : {A : Type 0} → Option ℕ → List (Message A) → Option ℕ
position p [] = p
position p (m ∷ messages) = position (position_after p m) messages

-- Next after the block, or anywhere at the start.
abbrev pub NextOf : Option ℕ → ℕ → Type 0
NextOf none n = Unit
NextOf (some h) n = n ≡ h + 1

abbrev pub SameAs : Option ℕ → ℕ → Type 0
SameAs none n = Unit
SameAs (some h) n = n ≡ h

abbrev pub Fits : {A : Type 0} → Option ℕ → Message A → Type 0
Fits p gap = Unit
Fits p (snapshot views time height) = SameAs p height
Fits p (fills batch) = Unit
Fits p (l4_book_updates diffs statuses) =
    (diffs.block_number ≡ statuses.block_number) × NextOf p statuses.block_number

-- A stream in which no block is left out and none comes twice: the updates are of both halves of the
-- next block, and an L2 view is of the block that the consumer has come to.
abbrev pub Contiguous : {A : Type 0} → Option ℕ → List (Message A) → Type 0
Contiguous p [] = Unit
Contiguous p (m ∷ messages) = Fits p m × Contiguous (position_after p m) messages

position-snoc :
    {A : Type 0} (p : Option ℕ) (messages : List (Message A)) (m : Message A)
    → position p (messages ++ m ∷ []) ≡ position_after (position p messages) m
position-snoc p [] m = refl
position-snoc p (x ∷ messages) m = position-snoc (position_after p x) messages m

Contiguous-snoc :
    {A : Type 0} (p : Option ℕ) (messages : List (Message A)) (m : Message A)
    → Contiguous p messages
    → Fits (position p messages) m
    → Contiguous p (messages ++ m ∷ [])
Contiguous-snoc p [] m all fits = (fits, tt)
Contiguous-snoc p (x ∷ messages) m all fits =
    (all.0, Contiguous-snoc (position_after p x) messages m all.1 fits)

module _ {A : Type 0} (api : QueueApi ℕ (InnerL4Order A)) where
  -- The pairs are of the blocks after the one height, up to the other.
  abbrev pub Chain : ℕ → List (Pair api) → ℕ → Type 0
  Chain h [] g = g ≡ h
  Chain h ((t, u) ∷ cache) g = (t.block_number ≡ h + 1) × IsPair t u × Chain t.block_number cache g

  pub Chain-snoc :
      (h : ℕ) (cache : List (Pair api)) (g : ℕ) (pair : Pair api)
      → Chain h cache g
      → pair.0.block_number ≡ g + 1
      → IsPair pair.0 pair.1
      → Chain h (cache ++ pair ∷ []) pair.0.block_number
  Chain-snoc h [] g (t, u) chain next same = (next ∙ ap (λ n. n + 1) chain, same, refl)
  Chain-snoc h ((t', u') ∷ cache) g pair chain next same =
      (chain.0, chain.1, Chain-snoc t'.block_number cache g pair chain.2 next same)

  -- The cache holds what was applied since the state was cloned, which is where a state is missing
  -- if the clone is missing.
  abbrev pub Tracks :
      Option (OrderBookState api) → Option (OrderBookState api) → Option (List (Pair api)) → Type 0
  Tracks none none cache = Unit
  Tracks none (some b) cache = ⊥
  Tracks (some s) none cache = ⊥
  Tracks (some s) (some b) none = ⊥
  Tracks (some s) (some b) (some cache) = Chain s.height cache b.height

  -- The epoch has moved on `k` times.
  abbrev pub Moved : ℕ → Attempt api → ℕ → Type 0
  Moved k a epoch = (a.epoch < 2 ^ 64) × (epoch ≡ (a.epoch + k) % 2 ^ 64)

  -- An attempt is of the epoch and tracks the state, or it is from before, at most `n + 1` epochs,
  -- and nothing is cached for it.
  abbrev pub PhaseOf :
      ℕ
      → Attempt api
      → ℕ
      → Option (OrderBookState api)
      → Option (List (Pair api))
      → Option ℕ
      → Type 0
  PhaseOf n a epoch state cache started =
      (Moved 0 a epoch × Tracks a.state state cache)
      ⊎ ((k : ℕ) × (0 < k) × (k ≤ n + 1) × Moved k a epoch × (cache ≡ none) × (started ≡ none))

  abbrev pub Phase :
      ℕ
      → Option (Attempt api)
      → ℕ
      → Option (OrderBookState api)
      → Option (List (Pair api))
      → Option ℕ
      → Type 0
  Phase n none epoch state cache started = Unit
  Phase n (some a) epoch state cache started = PhaseOf n a epoch state cache started

  abbrev pub Bumped : ℕ → Option (Attempt api) → ℕ → Type 0
  Bumped n none epoch = Unit
  Bumped n (some a) epoch = (k : ℕ) × (k ≤ n + 1) × Moved k a epoch

  pub Phase-Bumped :
      (n : ℕ) (a : Option (Attempt api)) (epoch : ℕ) (state : Option (OrderBookState api))
      (cache : Option (List (Pair api))) (started : Option ℕ)
      → Phase n a epoch state cache started
      → Bumped n a epoch
  Phase-Bumped n none epoch state cache started phase = tt
  Phase-Bumped n (some a) epoch state cache started (inl (moved, tracks)) = (0, omega arith, moved)
  Phase-Bumped n (some a) epoch state cache started (inr (k, _, low, moved, _, _)) = (k, low, moved)

  -- The state stands where the consumers of the stream do.
  abbrev pub StandsAt : Option (OrderBookState api) → Option ℕ → Type 0
  StandsAt none p = p ≡ none
  StandsAt (some b) p = SameAs p b.height

  -- What holds of a listener between two steps, with the attempt that is under way.
  pub record IsSound (n : ℕ) (a : Option (Attempt api)) (l : Listener api) : Type 0 where
    pub sends : (l.has_tx ≡ true) × (l.limits.turn_bytes < 2 ^ 63)
    pub contiguous : Contiguous none l.sent
    pub stands : StandsAt l.order_book_state (position none l.sent)
    pub bounded : l.recovery_epoch < 2 ^ 64
    pub dated : IsDatedQueue l.order_status_cache.deque
    pub phase :
        Phase n a l.recovery_epoch l.order_book_state l.fetched_snapshot_cache
          l.snapshot_cache_started

  -- What is left of that where a step fails, and what a fence repairs.
  pub record IsBroken (n : ℕ) (a : Option (Attempt api)) (l : Listener api) : Type 0 where
    pub sends : (l.has_tx ≡ true) × (l.limits.turn_bytes < 2 ^ 63)
    pub contiguous : Contiguous none l.sent
    pub bumped : Bumped n a l.recovery_epoch

  pub IsSound-IsBroken :
      (n : ℕ) (a : Option (Attempt api)) (l : Listener api) → IsSound n a l → IsBroken n a l
  IsSound-IsBroken n a l s = record {
    sends = s.sends;
    contiguous = s.contiguous;
    bumped =
        Phase-Bumped n a l.recovery_epoch l.order_book_state l.fetched_snapshot_cache
          l.snapshot_cache_started s.phase;
  }

  pub send-sent :
      (l : Listener api) (m : Message A)
      → l.has_tx ≡ true
      → send api l m ≡ record l { sent = l.sent ++ m ∷ [] }
  send-sent l m sends = ap (λ b. if b then record l { sent = l.sent ++ m ∷ [] } else l) sends

  -- A message that fits keeps the listener sound, where the state stands at the position after it.
  pub send-IsSound :
      (n : ℕ) (a : Option (Attempt api)) (l : Listener api) (m : Message A)
      → (l.has_tx ≡ true) × (l.limits.turn_bytes < 2 ^ 63)
      → Contiguous none l.sent
      → Fits (position none l.sent) m
      → StandsAt l.order_book_state (position_after (position none l.sent) m)
      → l.recovery_epoch < 2 ^ 64
      → Phase n a l.recovery_epoch l.order_book_state l.fetched_snapshot_cache
          l.snapshot_cache_started
      → IsDatedQueue l.order_status_cache.deque
      → IsSound n a (send api l m)
  send-IsSound n a l m sends all fits stands bounded phase dated =
      subst (IsSound n a) (sym (send-sent l m sends.0)) (record {
        sends = sends;
        contiguous = Contiguous-snoc none l.sent m all fits;
        stands = subst (StandsAt l.order_book_state) (sym (position-snoc none l.sent m)) stands;
        bounded = bounded;
        dated = dated;
        phase = phase;
      })

  Bumped-stale :
      (n : ℕ) (a : Option (Attempt api)) (epoch : ℕ)
      → Bumped n a epoch
      → Phase (n + 1) a (increased epoch) none none none
  Bumped-stale n none epoch bumped = tt
  Bumped-stale n (some a) epoch (k, low, moved) =
      inr (k + 1, omega arith, omega arith, (moved.0, omega (arith, moved.1)), refl, refl)

  -- The fence tells the consumers to start again.
  pub fence-IsSound :
      (n : ℕ) (a : Option (Attempt api)) (l : Listener api)
      → IsBroken n a l
      → IsSound (n + 1) a (fence api l)
  unfolding fence new_queue
  fence-IsSound n a l s =
      send-IsSound (n + 1) a _ gap s.sends s.contiguous tt refl (omega arith)
        (Bumped-stale n a l.recovery_epoch s.bumped) empty-IsDatedQueue

  Phase-weaken :
      (n m : ℕ) (a : Option (Attempt api)) (epoch : ℕ) (state : Option (OrderBookState api))
      (cache : Option (List (Pair api))) (started : Option ℕ)
      → n ≤ m
      → Phase n a epoch state cache started
      → Phase m a epoch state cache started
  Phase-weaken n m none epoch state cache started more phase = tt
  Phase-weaken n m (some a) epoch state cache started more (inl now) = inl now
  Phase-weaken n m (some a) epoch state cache started more (inr (k, pos, low, moved, empty, off)) =
      inr (k, pos, omega arith, moved, empty, off)

  pub weaken :
      (n m : ℕ) (a : Option (Attempt api)) (l : Listener api)
      → n ≤ m
      → IsSound n a l
      → IsSound m a l
  weaken n m a l more s = record {
    sends = s.sends;
    contiguous = s.contiguous;
    stands = s.stands;
    bounded = s.bounded;
    dated = s.dated;
    phase =
        Phase-weaken n m a l.recovery_epoch l.order_book_state l.fetched_snapshot_cache
          l.snapshot_cache_started more s.phase;
  }
