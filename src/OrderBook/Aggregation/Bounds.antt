-- ===== src/OrderBook/Aggregation/Bounds.antt =====
-- Where the buckets of an aggregated view lie, in which order, and how many they are.
use order_book_server.Base.{
  ℕ, ◌+◌, ◌≤◌, ◌≡◌, refl, ap, inl, inr, true, false, Option, none, some, List, [], ◌∷◌, ◌==◌,
  length, length-append, arith, Bool-cases, All,
}
use order_book_server.OrderBook.Types.{Side}
use order_book_server.OrderBook.Aggregation.{
  InnerLevel, OnResult, bucket, extend, is_new_bucket, Built, open_bucket, add_to, build_l2_level,
  build_levels, l2_levels_to_l2_levels,
}

abbrev pub count : Option InnerLevel → ℕ
count none = 0
count (some l) = 1

length-extend :
    (levels : List InnerLevel) (cur : Option InnerLevel)
    → length (extend levels cur) ≡ length levels + count cur
length-extend levels none = omega arith
length-extend levels (some l) = length-append levels (l ∷ [])

module _ (log10_floor : ℕ → ℕ) (n_levels n_sig_figs mantissa : Option ℕ) (side : Side) where
  -- A property of `cur_level` and `levels` that each step of the `for` keeps holds at its end.
  pub build_levels-Keeps :
      (P : Option InnerLevel → List InnerLevel → Type 0) (Q : InnerLevel → Type 0)
      → ((cur : Option InnerLevel) (levels : List InnerLevel) (level : InnerLevel)
          → Q level
          → P cur levels
          → OnResult
              (λ built. P built.0 built.1)
              (build_l2_level log10_floor cur levels n_levels n_sig_figs mantissa side level))
      → (input : List InnerLevel) (cur : Option InnerLevel) (levels : List InnerLevel) → All Q input
      → P cur levels
      → OnResult
          (λ out.
            (cur' : Option InnerLevel) × (levels' : List InnerLevel) × (out ≡ extend levels' cur')
            × P cur' levels')
          (build_levels log10_floor n_levels n_sig_figs mantissa side input cur levels)
  unfolding build_levels
  build_levels-Keeps P Q keeps [] cur levels q p = (cur, levels, refl, p)
  build_levels-Keeps P Q keeps (level ∷ rest) cur levels q p =
      go (build_l2_level log10_floor cur levels n_levels n_sig_figs mantissa side level)
        (keeps cur levels level q.0 p)
        (λ cur' levels' p'. build_levels-Keeps P Q keeps rest cur' levels' q.1 p')
    where
      go :
          (built : Option Built)
          → OnResult (λ b. P b.0 b.1) built
          → ((cur' : Option InnerLevel) (levels' : List InnerLevel)
              → P cur' levels'
              → OnResult
                  (λ out.
                    (cur'' : Option InnerLevel) × (levels'' : List InnerLevel) × (out
                      ≡ extend levels'' cur'')
                    × P cur'' levels'')
                  (build_levels log10_floor n_levels n_sig_figs mantissa side rest cur' levels'))
          → OnResult
              (λ out.
                (cur' : Option InnerLevel) × (levels' : List InnerLevel) × (out
                  ≡ extend levels' cur')
                × P cur' levels')
              (elim built [
                | none ↦ none
                | some (cur', levels', true) ↦ some (extend levels' cur')
                | some (cur', levels', false) ↦
                    build_levels log10_floor n_levels n_sig_figs mantissa side rest cur' levels'
              ])
      go none p' next = tt
      go (some (cur', levels', true)) p' next = (cur', levels', refl, p')
      go (some (cur', levels', false)) p' next = next cur' levels' p'

-- What the limit leaves room for.
abbrev pub Within : Option ℕ → Option InnerLevel → List InnerLevel → Type 0
Within none cur levels = Unit
Within (some limit) cur levels = length levels + count cur ≤ limit

open_bucket-Within :
    (n_levels : Option ℕ) (level : InnerLevel) (levels : List InnerLevel) (px : Option ℕ)
    → Within n_levels none levels
    → OnResult (λ built. Within n_levels built.0 built.1) (open_bucket n_levels level levels px)
open_bucket-Within n_levels level levels none fits = tt
open_bucket-Within none level levels (some px) fits = tt
open_bucket-Within (some limit) level levels (some px) fits =
    elim (Bool-cases (limit == length levels)) [
      | inl full ↦ rw full fits
      | inr room ↦ rw room (ground arith)
    ]

extend-Within :
    (n_levels : Option ℕ) (cur : Option InnerLevel) (levels : List InnerLevel)
    → Within n_levels cur levels
    → Within n_levels none (extend levels cur)
extend-Within none cur levels fits = tt
extend-Within (some limit) cur levels fits = omega (arith, length-extend levels cur, fits)

add_to-Within :
    (n_levels : Option ℕ) (cur : Option InnerLevel) (levels : List InnerLevel) (level : InnerLevel)
    → Within n_levels cur levels
    → Within n_levels (add_to cur level) levels
add_to-Within none cur levels level fits = tt
add_to-Within (some limit) none levels level fits = fits
add_to-Within (some limit) (some c) levels level fits = fits

build_l2_level-Within :
    (log10_floor : ℕ → ℕ) (n_levels n_sig_figs mantissa : Option ℕ) (side : Side)
    (cur : Option InnerLevel) (levels : List InnerLevel) (level : InnerLevel)
    → Within n_levels cur levels
    → OnResult
        (λ built. Within n_levels built.0 built.1)
        (build_l2_level log10_floor cur levels n_levels n_sig_figs mantissa side level)
unfolding build_l2_level
build_l2_level-Within log10_floor n_levels n_sig_figs mantissa side cur levels level fits =
    elim (Bool-cases (is_new_bucket cur side level.px)) [
      | inl fresh ↦ rw fresh (
          open_bucket-Within n_levels level (extend levels cur)
            (bucket log10_floor level.px side n_sig_figs mantissa)
            (extend-Within n_levels cur levels fits))
      | inr same ↦ rw same (add_to-Within n_levels cur levels level fits)
    ]

pub All-true : (levels : List InnerLevel) → All (λ level. Unit {0}) levels
All-true [] = tt
All-true (level ∷ levels) = (tt, All-true levels)

pub OnResult-map :
    {A : Type 0} {P Q : A → Type 0} (r : Option A)
    → ((x : A) → P x → Q x)
    → OnResult P r
    → OnResult Q r
OnResult-map none f p = tt
OnResult-map (some x) f p = f x p

-- An aggregated side never has more levels than were asked for.
pub l2_levels_to_l2_levels-bound :
    (log10_floor : ℕ → ℕ) (levels : List InnerLevel) (side : Side) (limit : ℕ)
    (n_sig_figs mantissa : Option ℕ)
    → OnResult
        (λ out. length out ≤ limit)
        (l2_levels_to_l2_levels log10_floor levels side (some limit) n_sig_figs mantissa)
unfolding l2_levels_to_l2_levels
l2_levels_to_l2_levels-bound log10_floor levels side limit n_sig_figs mantissa =
    elim (Bool-cases (limit == 0)) [
      | inl nothing ↦ rw nothing (omega arith)
      | inr room ↦ rw room (
          OnResult-map
            (build_levels log10_floor (some limit) n_sig_figs mantissa side levels none [])
            (λ out end. omega (arith, ap length end.2, length-extend end.1 end.0, end.3))
            (build_levels-Keeps log10_floor (some limit) n_sig_figs mantissa side
              (Within (some limit)) (λ level. Unit {0})
              (λ cur so_far level q.
                build_l2_level-Within log10_floor (some limit) n_sig_figs mantissa side cur so_far
                  level)
              levels none [] (All-true levels) (omega arith)))
    ]
