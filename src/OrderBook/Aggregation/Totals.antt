-- ===== src/OrderBook/Aggregation/Totals.antt =====
-- What an aggregated view keeps: the total size and the number of orders.
use order_book_server.Base.{
  ℕ, ◌+◌, ◌%◌, ◌^◌, ◌<◌, ◌≡◌, refl, subst, inl, inr, true, false, Option, none, some, List, [], ◌∷◌,
  ◌++◌, arith, Bool-cases, sum_by, sum_by-append,
}
use order_book_server.OrderBook.Types.{Side}
use order_book_server.OrderBook.Aggregation.{
  InnerLevel, OnResult, bucket, extend, is_new_bucket, Built, open_bucket, add_to, build_l2_level,
  build_levels, l2_levels_to_l2_levels,
}
use order_book_server.OrderBook.Aggregation.Bounds.{OnResult-map}

abbrev pub sizes : List InnerLevel → ℕ
sizes = sum_by (λ l. l.sz)

abbrev pub orders : List InnerLevel → ℕ
orders = sum_by (λ l. l.n)

-- The totals of the levels and the open bucket.
abbrev pub Total : ℕ → ℕ → Option InnerLevel → List InnerLevel → Type 0
Total s k cur levels = (sizes (extend levels cur) ≡ s) × (orders (extend levels cur) ≡ k)

abbrev pub Step : ℕ → ℕ → Built → Type 0
Step s k built = Total s k built.0 built.1 × (built.2 ≡ false)

open_bucket-Total :
    (s k : ℕ) (level : InnerLevel) (levels : List InnerLevel) (px : Option ℕ)
    → (sizes levels ≡ s) × (orders levels ≡ k)
    → OnResult (Step (s + level.sz) (k + level.n)) (open_bucket none level levels px)
open_bucket-Total s k level levels none total = tt
open_bucket-Total s k level levels (some px) (a, b) =
    let l : InnerLevel = record { px = px; sz = level.sz; n = level.n } in
    (
      (
        omega (arith, a, sum_by-append (λ x. x.sz) levels (l ∷ [])),
        omega (arith, b, sum_by-append (λ x. x.n) levels (l ∷ [])),
      ),
      refl,
    )

add_to-Total :
    (s k : ℕ) (c level : InnerLevel) (levels : List InnerLevel)
    → s + level.sz < 2 ^ 64
    → k + level.n < 2 ^ 64
    → Total s k (some c) levels
    → Total (s + level.sz) (k + level.n) (add_to (some c) level) levels
add_to-Total s k c level levels small few (a, b) = (
  omega (
    arith,
    a,
    small,
    sum_by-append (λ x. x.sz) levels (c ∷ []),
    sum_by-append (λ x. x.sz) levels
        (record { px = c.px; sz = (level.sz + c.sz) % 2 ^ 64; n = (c.n + level.n) % 2 ^ 64 } ∷ []),
  ),
  omega (
    arith,
    b,
    few,
    sum_by-append (λ x. x.n) levels (c ∷ []),
    sum_by-append (λ x. x.n) levels
        (record { px = c.px; sz = (level.sz + c.sz) % 2 ^ 64; n = (c.n + level.n) % 2 ^ 64 } ∷ []),
  ),
)

module _ (log10_floor : ℕ → ℕ) (n_sig_figs mantissa : Option ℕ) (side : Side) where
  build_l2_level-Total :
      (s k : ℕ) (cur : Option InnerLevel) (levels : List InnerLevel) (level : InnerLevel)
      → s + level.sz < 2 ^ 64
      → k + level.n < 2 ^ 64
      → Total s k cur levels
      → OnResult
          (Step (s + level.sz) (k + level.n))
          (build_l2_level log10_floor cur levels none n_sig_figs mantissa side level)
  unfolding build_l2_level
  build_l2_level-Total s k none levels level small few total =
      open_bucket-Total s k level levels (bucket log10_floor level.px side n_sig_figs mantissa)
        total
  build_l2_level-Total s k (some c) levels level small few total =
      elim (Bool-cases (is_new_bucket (some c) side level.px)) [
        | inl new ↦ rw new (
            open_bucket-Total s k level (levels ++ c ∷ [])
              (bucket log10_floor level.px side n_sig_figs mantissa) total)
        | inr old ↦ rw old (add_to-Total s k c level levels small few total, refl)
      ]

  build_levels-Total :
      (s k : ℕ) (input : List InnerLevel) (cur : Option InnerLevel) (levels : List InnerLevel)
      → s + sizes input < 2 ^ 64
      → k + orders input < 2 ^ 64
      → Total s k cur levels
      → OnResult
          (Total (s + sizes input) (k + orders input) none)
          (build_levels log10_floor none n_sig_figs mantissa side input cur levels)
  unfolding build_levels
  build_levels-Total s k [] cur levels small few total =
      (omega (arith, total.0), omega (arith, total.1))
  build_levels-Total s k (level ∷ rest) cur levels small few total =
      go (Total (s + (level.sz + sizes rest)) (k + (level.n + orders rest)) none)
        (build_l2_level log10_floor cur levels none n_sig_figs mantissa side level)
        (build_l2_level-Total s k cur levels level (omega (arith, small)) (omega (arith, few))
          total)
        (λ cur' levels' total'.
          subst {A = ℕ × ℕ}
            (λ t.
              OnResult (Total t.0 t.1 none)
                (build_levels log10_floor none n_sig_figs mantissa side rest cur' levels'))
            (λ i. (assoc s level.sz (sizes rest) i, assoc k level.n (orders rest) i))
            (build_levels-Total (s + level.sz) (k + level.n) rest cur' levels'
              (omega (arith, small)) (omega (arith, few)) total'))
    where
      assoc : (a b c : ℕ) → (a + b) + c ≡ a + (b + c)
      assoc a b c = omega arith

      go :
          (T : List InnerLevel → Type 0) (built : Option Built)
          → OnResult (Step (s + level.sz) (k + level.n)) built
          → ((cur' : Option InnerLevel) (levels' : List InnerLevel)
              → Total (s + level.sz) (k + level.n) cur' levels'
              → OnResult T
                  (build_levels log10_floor none n_sig_figs mantissa side rest cur' levels'))
          → OnResult T (elim built [
            | none ↦ none
            | some (cur', levels', true) ↦ some (extend levels' cur')
            | some (cur', levels', false) ↦
                build_levels log10_floor none n_sig_figs mantissa side rest cur' levels'
          ])
      go T none step next = tt
      go T (some (cur', levels', true)) step next = ground arith
      go T (some (cur', levels', false)) step next = next cur' levels' (step.0)

  -- Without a limit on the levels, an aggregated side keeps the total size and the number of
  -- orders, where these fit in 64 bits.
  pub l2_levels_to_l2_levels-Total :
      (levels : List InnerLevel)
      → sizes levels < 2 ^ 64
      → orders levels < 2 ^ 64
      → OnResult
          (λ out. (sizes out ≡ sizes levels) × (orders out ≡ orders levels))
          (l2_levels_to_l2_levels log10_floor levels side none n_sig_figs mantissa)
  unfolding l2_levels_to_l2_levels
  l2_levels_to_l2_levels-Total levels small few =
      OnResult-map (build_levels log10_floor none n_sig_figs mantissa side levels none [])
        (λ out t. (omega (arith, t.0), omega (arith, t.1)))
        (build_levels-Total 0 0 levels none [] (omega (arith, small)) (omega (arith, few))
          (refl, refl))
