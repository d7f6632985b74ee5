-- ===== src/OrderBook/Aggregation/Order.antt =====
-- The prices of an aggregated view: each bucket holds the price it is made for, and they are sorted.
use order_book_server.Base.{
  ℕ, ◌+◌, ◌-◌, ◌*◌, ◌/◌, ◌%◌, ◌^◌, ◌≤◌, ◌<◌, ◌≡◌, refl, sym, ap, subst, ◌⊎◌, inl, inr, true, Option,
  none, some, List, [], ◌∷◌, ◌++◌, ltb, ◌==◌, arith, Bool-cases, All, length,
}
use native.Mathlib.Nat.{div-mul-le_self, lt-div-mul-add, mod-eq-sub-div-mul}
use order_book_server.OrderBook.Types.{Side, ask, bid}
use order_book_server.OrderBook.Aggregation.{
  InnerLevel, OnResult, increment, round_to, bucket, extend, is_new_bucket, is_limit, open_bucket,
  build_l2_level, build_levels, l2_levels_to_l2_levels,
}
use order_book_server.OrderBook.Aggregation.Bounds.{build_levels-Keeps, OnResult-map}

-- `px` within its bucket: at most one increment on the passive side of the price.
abbrev pub Holds : Side → ℕ → ℕ → ℕ → Type 0
Holds ask inc px b = (px ≤ b) × (b < px + inc)
Holds bid inc px b = (b ≤ px) × (px < b + inc)

unwrapped :
    (px inc r : ℕ)
    → px ≤ r
    → r < px + inc
    → px + inc ≤ 2 ^ 64
    → (px ≤ r % 2 ^ 64) × (r % 2 ^ 64 < px + inc)
unwrapped px inc r low high fits = (omega arith, omega arith)

round_to-Holds :
    (side : Side) (px inc : ℕ)
    → px + inc ≤ 2 ^ 64
    → OnResult (Holds side inc px) (round_to side px inc)
unfolding round_to
round_to-Holds ask px inc fits = elim (Bool-cases (inc == 0)) [
  | inl nothing ↦ rw nothing tt
  | inr some_inc ↦
      let pos : 0 < inc = ground arith in
      let low : px / inc * inc ≤ px = div-mul-le_self px inc in
      let high : px < px / inc * inc + inc = lt-div-mul-add pos in
      let rest : px % inc ≡ px - px / inc * inc = mod-eq-sub-div-mul px inc in
      let next : (px / inc + 1) * inc ≡ px / inc * inc + inc = omega arith in
      elim (Bool-cases (ltb 0 (px % inc))) [
        | inl up ↦
            rw (some_inc, up)
              (unwrapped px inc ((px / inc + 1) * inc) (ground (arith, next)) (ground (arith, next))
                fits)
        | inr exact ↦
            rw (some_inc, exact)
              (unwrapped px inc (px / inc * inc) (ground arith) (ground arith) fits)
      ]
]
round_to-Holds bid px inc fits = elim (Bool-cases (inc == 0)) [
  | inl nothing ↦ rw nothing tt
  | inr some_inc ↦ rw some_inc (div-mul-le_self px inc, lt-div-mul-add (ground arith))
]

-- The increment of a bucket, where there are significant figures to keep.
abbrev pub NoWrap : (ℕ → ℕ) → Option ℕ → Option ℕ → InnerLevel → Type 0
NoWrap log10_floor none mantissa level = Unit
NoWrap log10_floor (some n) mantissa level =
    level.px + increment log10_floor level.px n mantissa ≤ 2 ^ 64

-- A bucket holds the price it is made for: an ask is rounded up and a bid down, by less than the
-- increment, whatever the logarithm says, where the price and the increment fit in 64 bits.
pub bucket-Holds :
    (log10_floor : ℕ → ℕ) (px : ℕ) (side : Side) (n : ℕ) (mantissa : Option ℕ)
    → px + increment log10_floor px n mantissa ≤ 2 ^ 64
    → OnResult
        (Holds side (increment log10_floor px n mantissa) px)
        (bucket log10_floor px side (some n) mantissa)
unfolding bucket
bucket-Holds log10_floor px side n mantissa fits =
    round_to-Holds side px (increment log10_floor px n mantissa) fits

abbrev pub Beyond : Side → ℕ → ℕ → Type 0
Beyond ask x y = x < y
Beyond bid x y = y < x

-- From the best price on, each strictly worse.
abbrev pub Sorted : Side → List ℕ → Type 0
Sorted side [] = Unit
Sorted side (x ∷ xs) = All (Beyond side x) xs × Sorted side xs

abbrev pub prices : List InnerLevel → List ℕ
prices [] = []
prices (l ∷ levels) = l.px ∷ prices levels

-- On the passive side, or the same.
abbrev pub Outward : Side → ℕ → ℕ → Type 0
Outward ask px b = px ≤ b
Outward bid px b = b ≤ px

Beyond-Outward : (side : Side) (x px b : ℕ) → Beyond side x px → Outward side px b → Beyond side x b
Beyond-Outward ask x px b far out = omega arith
Beyond-Outward bid x px b far out = omega arith

Beyond-trans : (side : Side) (x y z : ℕ) → Beyond side x y → Beyond side y z → Beyond side x z
Beyond-trans ask x y z f g = omega arith
Beyond-trans bid x y z f g = omega arith

bucket-Outward :
    (log10_floor : ℕ → ℕ) (level : InnerLevel) (side : Side) (n_sig_figs mantissa : Option ℕ)
    → NoWrap log10_floor n_sig_figs mantissa level
    → OnResult (Outward side level.px) (bucket log10_floor level.px side n_sig_figs mantissa)
unfolding bucket
bucket-Outward log10_floor level ask none mantissa fits = omega arith
bucket-Outward log10_floor level bid none mantissa fits = omega arith
bucket-Outward log10_floor level ask (some n) mantissa fits =
    OnResult-map (round_to ask level.px (increment log10_floor level.px n mantissa)) (λ b h. h.0)
      (round_to-Holds ask level.px (increment log10_floor level.px n mantissa) fits)
bucket-Outward log10_floor level bid (some n) mantissa fits =
    OnResult-map (round_to bid level.px (increment log10_floor level.px n mantissa)) (λ b h. h.0)
      (round_to-Holds bid level.px (increment log10_floor level.px n mantissa) fits)

All-last :
    (P : ℕ → Type 0) (levels : List InnerLevel) (l : InnerLevel)
    → All P (prices (levels ++ l ∷ []))
    → P l.px
All-last P [] l all = all.0
All-last P (x ∷ levels) l all = All-last P levels l all.1

All-snoc :
    (P : ℕ → Type 0) (levels : List InnerLevel) (l : InnerLevel)
    → All P (prices levels)
    → P l.px
    → All P (prices (levels ++ l ∷ []))
All-snoc P [] l all p = (p, tt)
All-snoc P (x ∷ levels) l all p = (all.0, All-snoc P levels l all.1 p)

Sorted-snoc :
    (side : Side) (levels : List InnerLevel) (c l : InnerLevel)
    → Sorted side (prices (levels ++ c ∷ []))
    → Beyond side c.px l.px
    → Sorted side (prices ((levels ++ c ∷ []) ++ l ∷ []))
Sorted-snoc side [] c l sorted far = ((far, tt), (tt, tt))
Sorted-snoc side (x ∷ levels) c l sorted far = (
  All-snoc (Beyond side x.px) (levels ++ c ∷ []) l sorted.0
      (Beyond-trans side x.px c.px l.px (All-last (Beyond side x.px) levels c sorted.0) far),
  Sorted-snoc side levels c l sorted.1 far,
)

same_prices :
    (levels : List InnerLevel) (c c' : InnerLevel)
    → c.px ≡ c'.px
    → prices (levels ++ c ∷ []) ≡ prices (levels ++ c' ∷ [])
same_prices [] c c' same = ap (λ px. px ∷ []) same
same_prices (x ∷ levels) c c' same = ap (λ l. x.px ∷ l) (same_prices levels c c' same)

-- The state of the loop: the levels and the open bucket are sorted, and there is none open only at
-- the start or where the limit is reached.
abbrev pub InOrder : Option ℕ → Side → Option InnerLevel → List InnerLevel → Type 0
InOrder n_levels side none levels =
    Sorted side (prices levels) × ((levels ≡ []) ⊎ (is_limit n_levels (length levels) ≡ true))
InOrder n_levels side (some c) levels = Sorted side (prices (levels ++ c ∷ []))

new-Beyond :
    (side : Side) (c : InnerLevel) (px : ℕ)
    → is_new_bucket (some c) side px ≡ true
    → Beyond side c.px px
new-Beyond ask c px new = ground arith
new-Beyond bid c px new = ground arith

open_bucket_full :
    (n_levels : Option ℕ) (side : Side) (level : InnerLevel) (levels : List InnerLevel)
    (px : Option ℕ)
    → Sorted side (prices levels)
    → is_limit n_levels (length levels) ≡ true
    → OnResult
        (λ built. InOrder n_levels side built.0 built.1)
        (open_bucket n_levels level levels px)
open_bucket_full n_levels side level levels none sorted full = tt
open_bucket_full n_levels side level levels (some px) sorted full = rw full (sorted, inr full)

open_bucket-InOrder :
    (n_levels : Option ℕ) (side : Side) (level : InnerLevel) (levels : List InnerLevel)
    (px : Option ℕ)
    → Sorted side (prices levels)
    → ((b : ℕ)
        → px ≡ some b
        → Sorted side (prices (levels ++ record { px = b; sz = level.sz; n = level.n } ∷ [])))
    → OnResult
        (λ built. InOrder n_levels side built.0 built.1)
        (open_bucket n_levels level levels px)
open_bucket-InOrder n_levels side level levels none sorted fresh = tt
open_bucket-InOrder n_levels side level levels (some px) sorted fresh =
    elim (Bool-cases (is_limit n_levels (length levels))) [
      | inl full ↦ rw full (sorted, inr full)
      | inr room ↦ rw room (fresh px refl)
    ]

module _ (log10_floor : ℕ → ℕ) (n_levels n_sig_figs mantissa : Option ℕ) where
  bucket_out :
      (side : Side) (level : InnerLevel) (r : Option ℕ)
      → OnResult (Outward side level.px) r
      → (b : ℕ) → r ≡ some b
      → Outward side level.px b
  bucket_out side level none out b found = ground arith
  bucket_out side level (some b') out b found = subst (Outward side level.px) (ground arith) out

  fresh-InOrder :
      (side : Side) (cur : Option InnerLevel) (levels : List InnerLevel) (level : InnerLevel)
      → NoWrap log10_floor n_sig_figs mantissa level
      → is_new_bucket cur side level.px ≡ true
      → InOrder n_levels side cur levels
      → OnResult
          (λ built. InOrder n_levels side built.0 built.1)
          (open_bucket n_levels level
            (extend levels cur)
            (bucket log10_floor level.px side n_sig_figs mantissa))
  fresh-InOrder side none levels level fits new (sorted, inl start) = rw start (
      open_bucket-InOrder n_levels side level []
        (bucket log10_floor level.px side n_sig_figs mantissa) tt (λ b found. (tt, tt)))
  fresh-InOrder side none levels level fits new (sorted, inr full) =
      open_bucket_full n_levels side level levels
        (bucket log10_floor level.px side n_sig_figs mantissa) sorted full
  fresh-InOrder side (some c) levels level fits new sorted =
      open_bucket-InOrder n_levels side level (levels ++ c ∷ [])
        (bucket log10_floor level.px side n_sig_figs mantissa) sorted
        (λ b found.
          Sorted-snoc side levels c (record { px = b; sz = level.sz; n = level.n }) sorted
            (Beyond-Outward side c.px level.px b (new-Beyond side c level.px new) (
              bucket_out side level (bucket log10_floor level.px side n_sig_figs mantissa)
                (bucket-Outward log10_floor level side n_sig_figs mantissa fits) b found)))

  build_l2_level-InOrder :
      (side : Side) (cur : Option InnerLevel) (levels : List InnerLevel) (level : InnerLevel)
      → NoWrap log10_floor n_sig_figs mantissa level
      → InOrder n_levels side cur levels
      → OnResult
          (λ built. InOrder n_levels side built.0 built.1)
          (build_l2_level log10_floor cur levels n_levels n_sig_figs mantissa side level)
  unfolding build_l2_level
  build_l2_level-InOrder side none levels level fits p =
      fresh-InOrder side none levels level fits refl p
  build_l2_level-InOrder side (some c) levels level fits p =
      elim (Bool-cases (is_new_bucket (some c) side level.px)) [
        | inl new ↦ rw new (fresh-InOrder side (some c) levels level fits new p)
        | inr old ↦ rw old (subst (Sorted side) (same_prices levels c _ refl) p)
      ]

extend-Sorted :
    (n_levels : Option ℕ) (side : Side) (cur : Option InnerLevel) (levels : List InnerLevel)
    → InOrder n_levels side cur levels
    → Sorted side (prices (extend levels cur))
extend-Sorted n_levels side none levels p = p.0
extend-Sorted n_levels side (some c) levels p = p

-- An aggregated side is strictly sorted from the best price on, whatever the order of the levels it
-- is made from and whatever the logarithm says, where no price and increment exceed 64 bits.
pub l2_levels_to_l2_levels-Sorted :
    (log10_floor : ℕ → ℕ) (levels : List InnerLevel) (side : Side)
    (n_levels n_sig_figs mantissa : Option ℕ)
    → All (NoWrap log10_floor n_sig_figs mantissa) levels
    → OnResult
        (λ out. Sorted side (prices out))
        (l2_levels_to_l2_levels log10_floor levels side n_levels n_sig_figs mantissa)
unfolding l2_levels_to_l2_levels
l2_levels_to_l2_levels-Sorted log10_floor levels side n_levels n_sig_figs mantissa fits =
    elim (Bool-cases (is_limit n_levels 0)) [
      | inl nothing ↦ rw nothing tt
      | inr room ↦ rw room (
          OnResult-map (build_levels log10_floor n_levels n_sig_figs mantissa side levels none [])
            (λ out end.
              subst (λ o. Sorted side (prices o)) (sym (end.2))
                (extend-Sorted n_levels side end.0 end.1 end.3))
            (build_levels-Keeps log10_floor n_levels n_sig_figs mantissa side
              (InOrder n_levels side) (NoWrap log10_floor n_sig_figs mantissa)
              (λ cur so_far level fit.
                build_l2_level-InOrder log10_floor n_levels n_sig_figs mantissa side cur so_far
                  level fit)
              levels none [] fits (tt, inl refl)))
    ]
