-- ===== src/Listener/Pairs/First.antt =====
-- `pop_cache` finds the first block that both queues have, and drops what cannot be paired any more.
use order_book_server.Base.{
  ℕ, zero, suc, ◌+◌, ◌-◌, ◌≤◌, ◌<◌, ◌≡◌, ◌≢◌, refl, ap, subst, ◌⊎◌, inl, inr, arith, Option, none,
  some, List, [], ◌∷◌, ◌++◌, ltb, ◌==◌, length, All, All-imp, Bool-cases, nat_eq,
}
use order_book_server.Ingestion.Batches.{Batch, pop_front, front}
use order_book_server.Ingestion.Batches.Accounting.{number, Ascending}
use order_book_server.Listener.{Popped, pop_cache}
use order_book_server.Listener.Pairs.Taken.{Queued, Queued-cons}

Queued-inv :
    {E : Type 0} (s t : Batch E) (at : ℕ) (q : List (Batch E × ℕ))
    → Queued s ((t, at) ∷ q)
    → (t ≡ s) ⊎ Queued s q
Queued-inv s t at q ([], at', behind, split) = let same : t ≡ s = cc in inl same
Queued-inv s t at q (x ∷ ahead, at', behind, split) =
    let rest : q ≡ ahead ++ (s, at') ∷ behind = cc in inr (ahead, at', behind, rest)

above_all :
    {E : Type 0} (n : ℕ) (q : List (Batch E × ℕ)) (s : Batch E)
    → All (λ y. n < number y) q
    → Queued s q
    → n < s.block_number
above_all n [] s above ([], at, behind, split) = cc
above_all n [] s above (x ∷ ahead, at, behind, split) = cc
above_all n ((t, at) ∷ q) s above queued = elim (Queued-inv s t at q queued) [
  | inl same ↦ subst (λ b. n < b.block_number) same above.0
  | inr later ↦ above_all n q s above.1 later
]

-- The batch is of an earlier block than one in the queue.
abbrev pub IsOutrun : {E F : Type 0} → List (Batch F × ℕ) → Batch E × ℕ → Type 0
IsOutrun {F = F} other x = (later : Batch F) × Queued later other × (number x < later.block_number)

-- The queue is what is left of it behind batches that the other queue has outrun.
abbrev pub LeavesOf :
    {E F : Type 0} → List (Batch E × ℕ) → List (Batch E × ℕ) → List (Batch F × ℕ) → Type 0
LeavesOf {E = E} q left other =
    (gone : List (Batch E × ℕ)) × (q ≡ gone ++ left) × All (IsOutrun other) gone

module _ {E F : Type 0} where
  leaves_all : (q : List (Batch E × ℕ)) (other : List (Batch F × ℕ)) → LeavesOf q q other
  leaves_all q other = ([], refl, tt)

  drops_one :
      (x : Batch E × ℕ) (q left : List (Batch E × ℕ)) (other : List (Batch F × ℕ))
      → IsOutrun other x
      → LeavesOf q left other
      → LeavesOf (x ∷ q) left other
  drops_one x q left other outrun (gone, split, all) = (x ∷ gone, ap (◌∷◌ x) split, (outrun, all))

  more_others :
      (q left : List (Batch E × ℕ)) (y : Batch F × ℕ) (other : List (Batch F × ℕ))
      → LeavesOf q left other
      → LeavesOf q left (y ∷ other)
  more_others q left y other (gone, split, all) = (
    gone,
    split,
    All-imp (λ x outrun. (outrun.0, Queued-cons outrun.0 other y outrun.1, outrun.2)) gone all,
  )

none-Queued : {E : Type 0} (s : Batch E) → Queued s [] → ⊥
none-Queued s ([], at, behind, split) = cc
none-Queued s (x ∷ ahead, at, behind, split) = cc

at_least :
    {E : Type 0} (t : Batch E) (at : ℕ) (ss : List (Batch E × ℕ)) (s : Batch E)
    → All (λ y. t.block_number < number y) ss
    → Queued s ((t, at) ∷ ss)
    → t.block_number ≤ s.block_number
at_least {E = E} t at ss s above queued = elim (Queued-inv s t at ss queued) [
  | inl is ↦ let equal = ap (λ (b : Batch E). b.block_number) is in omega (arith, equal)
  | inr later ↦ let high = above_all t.block_number ss s above later in omega (arith, high)
]

module _ {S D : Type 0} where
  -- No block before `n` is in both queues.
  abbrev pub NoneBefore : ℕ → List (Batch S × ℕ) → List (Batch D × ℕ) → Type 0
  NoneBefore n ss ds =
      (s : Batch S) (d : Batch D)
      → Queued s ss
      → Queued d ds
      → s.block_number ≡ d.block_number
      → n ≤ s.block_number

  abbrev pub IsFirstPair : List (Batch S × ℕ) → List (Batch D × ℕ) → Popped S D → Type 0
  IsFirstPair ss ds (none, statuses, diffs) =
      ((statuses.deque ≡ []) ⊎ (diffs.deque ≡ []))
      × ((s : Batch S) (d : Batch D) → Queued s ss → Queued d ds → s.block_number ≢ d.block_number)
      × LeavesOf ss statuses.deque ds
      × LeavesOf ds diffs.deque ss
  IsFirstPair ss ds (some (t, u), statuses, diffs) =
      (t.block_number ≡ u.block_number)
      × NoneBefore t.block_number ss ds
      × ((at : ℕ) × LeavesOf ss ((t, at) ∷ statuses.deque) ds)
      × ((at : ℕ) × LeavesOf ds ((u, at) ∷ diffs.deque) ss)

  drop_status :
      (t : Batch S) (at : ℕ) (ss : List (Batch S × ℕ)) (ds : List (Batch D × ℕ)) (r : Popped S D)
      → ((d : Batch D) → Queued d ds → t.block_number < d.block_number)
      → IsOutrun ds (t, at)
      → IsFirstPair ss ds r
      → IsFirstPair ((t, at) ∷ ss) ds r
  drop_status t at ss ds (none, p, q) below outrun (over, apart, left_s, left_d) = (
    over,
    λ s d queued_s queued_d same. elim (Queued-inv s t at ss queued_s) [
      | inl is ↦
          let low = below d queued_d in
          let equal = ap (λ (b : Batch S). b.block_number) is in
          absurd (omega (arith, low, equal, same))
      | inr later ↦ apart s d later queued_d same
    ],
    drops_one (t, at) ss p.deque ds outrun left_s,
    more_others ds q.deque (t, at) ss left_d,
  )
  drop_status t at ss ds (some (t', u), p, q) below outrun (pair, first, (i, left_s), (j, left_d)) =
      (
        pair,
        λ s d queued_s queued_d same. elim (Queued-inv s t at ss queued_s) [
          | inl is ↦
              let low = below d queued_d in
              let equal = ap (λ (b : Batch S). b.block_number) is in
              absurd (omega (arith, low, equal, same))
          | inr later ↦ first s d later queued_d same
        ],
        (i, drops_one (t, at) ss ((t', i) ∷ p.deque) ds outrun left_s),
        (j, more_others ds ((u, j) ∷ q.deque) (t, at) ss left_d),
      )

  drop_diff :
      (u : Batch D) (at : ℕ) (ss : List (Batch S × ℕ)) (ds : List (Batch D × ℕ)) (r : Popped S D)
      → ((s : Batch S) → Queued s ss → u.block_number < s.block_number)
      → IsOutrun ss (u, at)
      → IsFirstPair ss ds r
      → IsFirstPair ss ((u, at) ∷ ds) r
  drop_diff u at ss ds (none, p, q) below outrun (over, apart, left_s, left_d) = (
    over,
    λ s d queued_s queued_d same. elim (Queued-inv d u at ds queued_d) [
      | inl is ↦
          let low = below s queued_s in
          let equal = ap (λ (b : Batch D). b.block_number) is in
          absurd (omega (arith, low, equal, same))
      | inr later ↦ apart s d queued_s later same
    ],
    more_others ss p.deque (u, at) ds left_s,
    drops_one (u, at) ds q.deque ss outrun left_d,
  )
  drop_diff u at ss ds (some (t, u'), p, q) below outrun (pair, first, (i, left_s), (j, left_d)) = (
    pair,
    λ s d queued_s queued_d same. elim (Queued-inv d u at ds queued_d) [
      | inl is ↦
          let low = below s queued_s in
          let equal = ap (λ (b : Batch D). b.block_number) is in
          absurd (omega (arith, low, equal, same))
      | inr later ↦ first s d queued_s later same
    ],
    (i, more_others ss ((t, i) ∷ p.deque) (u, at) ds left_s),
    (j, drops_one (u, at) ds ((u', j) ∷ q.deque) ss outrun left_d),
  )

  -- From queues of rising blocks and with more fuel than there are batches, the pair that `pop_cache`
  -- gives is of the first block that both queues have, and there is none only where no block is in both
  -- and one queue has run out. Behind the pair all later batches stay, and a batch in front that is
  -- dropped is of an earlier block than one in the other queue.
  pub pop_cache-IsFirstPair :
      (fuel : ℕ) (ss : List (Batch S × ℕ)) (ds : List (Batch D × ℕ)) (sl dl : Option ℕ) (sb db : ℕ)
      → length ss + length ds < fuel
      → Ascending ss
      → Ascending ds
      → IsFirstPair ss ds (
          pop_cache fuel
            (record { deque = ss; last_ts = sl; bytes = sb })
            (record { deque = ds; last_ts = dl; bytes = db }))
  unfolding pop_cache front pop_front
  pop_cache-IsFirstPair zero ss ds sl dl sb db more up_s up_d = absurd (omega arith)
  pop_cache-IsFirstPair (suc fuel) ss [] sl dl sb db more up_s up_d = (
    inr refl,
    λ s d queued_s queued_d. absurd (none-Queued d queued_d),
    leaves_all ss [],
    leaves_all [] ss,
  )
  pop_cache-IsFirstPair (suc fuel) [] ((u, at) ∷ ds) sl dl sb db more up_s up_d = (
    inl refl,
    λ s d queued_s queued_d. absurd (none-Queued s queued_s),
    leaves_all [] ((u, at) ∷ ds),
    leaves_all ((u, at) ∷ ds) [],
  )
  pop_cache-IsFirstPair (suc fuel) ((t, bt) ∷ ss) ((u, at) ∷ ds) sl dl sb db more up_s up_d =
      elim (Bool-cases (ltb u.block_number t.block_number)) [
        | inl less ↦ rw less (
            drop_diff u at ((t, bt) ∷ ss) ds _
              (λ s queued. let high = at_least t bt ss s up_s.0 queued in ground (arith, high))
              (t, ([], bt, ss, refl), ground arith)
              (pop_cache-IsFirstPair fuel ((t, bt) ∷ ss) ds sl dl sb (db - u.wire_bytes)
                (omega arith) up_s up_d.1))
        | inr up ↦ elim (Bool-cases (u.block_number == t.block_number)) [
          | inl same ↦
              rw (up, same)
                (
                  ground arith,
                  λ s d queued_s queued_d equal. at_least t bt ss s up_s.0 queued_s,
                  (bt, leaves_all ((t, bt) ∷ ss) ((u, at) ∷ ds)),
                  (at, leaves_all ((u, at) ∷ ds) ((t, bt) ∷ ss)),
                )
          | inr greater ↦
              rw (up, greater)
                (drop_status t bt ss ((u, at) ∷ ds) _
                  (λ d queued. let high = at_least u at ds d up_d.0 queued in ground (arith, high))
                  (u, ([], at, ds, refl), ground arith)
                  (pop_cache-IsFirstPair fuel ss ((u, at) ∷ ds) sl dl (sb - t.wire_bytes) db
                    (omega arith) up_s.1 up_d))
        ]
      ]
