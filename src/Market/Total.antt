-- ===== src/Market/Total.antt =====
-- The L2 views are taken without a panic, where the logarithm is that of a 64-bit price.
use order_book_server.Base.{
  ℕ, zero, suc, ◌-◌, ◌*◌, ◌%◌, ◌^◌, ◌≤◌, ◌<◌, ◌≡◌, refl, ap, ◌∙◌, inl, inr, arith, Bool, true,
  Option, none, some, List, [], ◌∷◌, ◌==◌, nat_eq, Bool-cases, ltb, ltb→lt, ◌&&◌, Returns,
  >>=-Returns, if-Returns, length, is_nil, Map,
}
use order_book_server.Queue.{QueueApi}
use order_book_server.OrderBook.Types.{Side, ask, bid, Text, text_eq, InnerOrder}
use order_book_server.OrderBook.{OrderBook, Snapshot, Levels}
use order_book_server.OrderBook.Aggregation.{
  InnerLevel, num_digits, increment, round_to, bucket, extend, is_new_bucket, is_limit, open_bucket,
  build_l2_level, build_levels, l2_levels_to_l2_levels, resample, map_to_l2_levels, levels_of,
  from_best, to_l2_snapshot,
}
use order_book_server.Market.{OrderBooks, Views, views, refresh_from, refresh_l2_snapshots, member}

abbrev pub all_below : ℕ → (ℕ → Bool) → Bool
all_below zero p = true
all_below (suc n) p = p n && all_below n p

all_below_sound : (n : ℕ) (p : ℕ → Bool) (k : ℕ) → all_below n p ≡ true → k < n → p k ≡ true
all_below_sound zero p k h low = absurd (omega arith)
all_below_sound (suc n) p k h low = ground (arith, all_below_sound n p k)

-- The increments of buckets with a mantissa do not vanish in 64 bits, for up to 15 zeros, nor do
-- those without one, for up to 19.
abbrev pub scaled : Option ℕ → ℕ → ℕ
scaled none k = 10 ^ k % 2 ^ 64
scaled (some m) k = m * (10 ^ k % 2 ^ 64) % 2 ^ 64

abbrev pub not_zero : ℕ → Bool
not_zero n = ltb 0 n

table_none : all_below 20 (λ k. not_zero (scaled none k)) ≡ true
table_none = refl

table_two : all_below 16 (λ k. not_zero (scaled (some 2) k)) ≡ true
table_two = refl

table_five : all_below 16 (λ k. not_zero (scaled (some 5) k)) ≡ true
table_five = refl

module _ (log10_floor : ℕ → ℕ) (sane : (px : ℕ) → log10_floor px ≤ 19) where
  num_digits-le : (px : ℕ) → num_digits log10_floor px ≤ 20
  num_digits-le px = ground (arith, sane px)

  -- Views with these parameters never divide by zero.
  abbrev Served : Option ℕ → Option ℕ → Type 0
  Served none m = Unit
  Served (some n) m = (px : ℕ) → 0 < increment log10_floor px n m

  plain_increment_pos : (n : ℕ) → 0 < n → Served (some n) none
  plain_increment_pos n pos px = ltb→lt _ _ (
      all_below_sound 20 (λ k. not_zero (scaled none k)) (num_digits log10_floor px - n) table_none
        (omega (arith, num_digits-le px)))

  double_increment_pos : Served (some 5) (some 2)
  double_increment_pos px = ltb→lt _ _ (
      all_below_sound 16 (λ k. not_zero (scaled (some 2) k)) (num_digits log10_floor px - 5)
        table_two (omega (arith, num_digits-le px)))

  fivefold_increment_pos : Served (some 5) (some 5)
  fivefold_increment_pos px = ltb→lt _ _ (
      all_below_sound 16 (λ k. not_zero (scaled (some 5) k)) (num_digits log10_floor px - 5)
        table_five (omega (arith, num_digits-le px)))

  round_to-Returns : (side : Side) (px inc : ℕ) → 0 < inc → Returns (round_to side px inc)
  unfolding round_to
  round_to-Returns ask px inc pos =
      if-Returns (inc == 0) none _ (λ h. absurd (ground arith)) (λ h. (_, refl))
  round_to-Returns bid px inc pos =
      if-Returns (inc == 0) none _ (λ h. absurd (ground arith)) (λ h. (_, refl))

  bucket-Returns :
      (px : ℕ) (side : Side) (n m : Option ℕ)
      → Served n m
      → Returns (bucket log10_floor px side n m)
  unfolding bucket
  bucket-Returns px side none m served = (px, refl)
  bucket-Returns px side (some n) m served =
      round_to-Returns side px (increment log10_floor px n m) (served px)

  open_bucket-Returns :
      (n_levels : Option ℕ) (level : InnerLevel) (levels : List InnerLevel) (px : Option ℕ)
      → Returns px
      → Returns (open_bucket n_levels level levels px)
  open_bucket-Returns n_levels level levels none (px, ran) = cc
  open_bucket-Returns n_levels level levels (some px) ran =
      if-Returns (is_limit n_levels (length levels)) _ _ (λ h. (_, refl)) (λ h. (_, refl))

  build_l2_level-Returns :
      (cur : Option InnerLevel) (levels : List InnerLevel) (n_levels n m : Option ℕ) (side : Side)
      (level : InnerLevel)
      → Served n m
      → Returns (build_l2_level log10_floor cur levels n_levels n m side level)
  unfolding build_l2_level
  build_l2_level-Returns cur levels n_levels n m side level served =
      if-Returns (is_new_bucket cur side level.px) _ _
        (λ h.
          open_bucket-Returns n_levels level (extend levels cur)
            (bucket log10_floor level.px side n m) (bucket-Returns level.px side n m served))
        (λ h. (_, refl))

  build_levels-Returns :
      (n_levels n m : Option ℕ) (side : Side) (input : List InnerLevel) (cur : Option InnerLevel)
      (levels : List InnerLevel)
      → Served n m
      → Returns (build_levels log10_floor n_levels n m side input cur levels)
  unfolding build_levels
  build_levels-Returns n_levels n m side [] cur levels served = (_, refl)
  build_levels-Returns n_levels n m side (level ∷ input) cur levels served =
      let (out, built) = build_l2_level-Returns cur levels n_levels n m side level served in
      let (cur', levels', stop) = out in
      elim (Bool-cases stop) [
        | inl stops ↦
            let ends = built ∙ ap (λ b. some (cur', levels', b)) stops in
            rw (ends, build_levels) (extend levels' cur', refl)
        | inr goes ↦
            let going = built ∙ ap (λ b. some (cur', levels', b)) goes in
            rw (going, build_levels)
              (build_levels-Returns n_levels n m side input cur' levels' served)
      ]

  l2_levels_to_l2_levels-Returns :
      (levels : List InnerLevel) (side : Side) (n_levels n m : Option ℕ)
      → Served n m
      → Returns (l2_levels_to_l2_levels log10_floor levels side n_levels n m)
  unfolding l2_levels_to_l2_levels
  l2_levels_to_l2_levels-Returns levels side n_levels n m served =
      if-Returns (is_limit n_levels 0) _ _ (λ h. (_, refl))
        (λ h. build_levels-Returns n_levels n m side levels none [] served)

  resample-Returns :
      (s : Snapshot InnerLevel) (n_levels n m : Option ℕ)
      → Served n m
      → Returns (resample log10_floor s n_levels n m)
  unfolding resample
  resample-Returns s n_levels n m served =
      >>=-Returns _ _ (l2_levels_to_l2_levels-Returns s.bids bid n_levels n m served) λ bids _.
        >>=-Returns _ _ (l2_levels_to_l2_levels-Returns s.asks ask n_levels n m served)
          λ asks _. (_, refl)

  module _ {O : Type 0} ⦃o : InnerOrder O⦄ (api : QueueApi ℕ O) where
    map_to_l2_levels-Returns :
        (levels : Levels api) (side : Side) (n_levels n m : Option ℕ)
        → Served n m
        → Returns (map_to_l2_levels api log10_floor levels side n_levels n m)
    unfolding map_to_l2_levels
    map_to_l2_levels-Returns levels side n_levels n m served =
        if-Returns (is_limit n_levels 0) _ _ (λ h. (_, refl))
          (λ h.
            build_levels-Returns n_levels n m side (levels_of api (from_best api side levels)) none
              [] served)

    views-Returns : (book : OrderBook api) → Returns (views api log10_floor book)
    unfolding views to_l2_snapshot
    views-Returns book =
        >>=-Returns _ _
          (>>=-Returns _ _ (map_to_l2_levels-Returns book.bids bid none none none tt) λ bids _.
            >>=-Returns _ _ (map_to_l2_levels-Returns book.asks ask none none none tt)
              λ asks _. (_, refl))
          λ raw _.
            >>=-Returns _ _
              (resample-Returns raw none (some 5) none (plain_increment_pos 5 (omega arith)))
              λ five _.
                >>=-Returns _ _ (resample-Returns five none (some 5) (some 2) double_increment_pos)
                  λ five_by_2 _.
                    >>=-Returns _ _
                      (resample-Returns five none (some 5) (some 5) fivefold_increment_pos)
                      λ five_by_5 _.
                        >>=-Returns _ _
                          (resample-Returns five_by_5 none (some 4) none
                            (plain_increment_pos 4 (omega arith)))
                          λ four _.
                            >>=-Returns _ _
                              (resample-Returns four none (some 3) none
                                (plain_increment_pos 3 (omega arith)))
                              λ three _.
                                >>=-Returns _ _
                                  (resample-Returns three none (some 2) none
                                    (plain_increment_pos 2 (omega arith)))
                                  λ two _. (_, refl)

    refresh_from-Returns :
        (books : OrderBooks api) (dirty : List Text) (cached : Map Text (Views api))
        → Returns (refresh_from api log10_floor books dirty cached)
    unfolding refresh_from
    refresh_from-Returns [] dirty cached = (cached, refl)
    refresh_from-Returns ((coin, book) ∷ books) dirty cached =
        >>=-Returns _ _ (refresh_from-Returns books dirty cached) λ rest _.
          if-Returns (member coin dirty) _ _
            (λ h. >>=-Returns _ _ (views-Returns book) λ view _. (_, refl)) (λ h. (_, refl))

    -- The views of all books are refreshed without a division by zero.
    pub refresh_l2_snapshots-Returns :
        (books : OrderBooks api) (dirty : List Text) (cached : Map Text (Views api))
        → Returns (refresh_l2_snapshots api log10_floor books dirty cached)
    unfolding refresh_l2_snapshots
    refresh_l2_snapshots-Returns books dirty cached =
        if-Returns (is_nil dirty) _ _ (λ h. (_, refl))
          (λ h. refresh_from-Returns books dirty cached)
