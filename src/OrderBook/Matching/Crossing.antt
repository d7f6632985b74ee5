-- ===== src/OrderBook/Matching/Crossing.antt =====
-- The outer loop of `match_order`: the levels of a side, from the best price on.
use mathlib.Core.List.{reverse-cons}
use order_book_server.Base.{
  ℕ, suc, ◌+◌, ◌<◌, ◌≡◌, refl, sym, ap, subst, ◌∙◌, ◌⊎◌, inl, inr, arith, Bool, true, false, ◌||◌,
  List, [], ◌∷◌, ◌++◌, reverse, if◌then◌else◌, ◌==◌, nat_eq, length, Bool-cases, values, All,
  All-append, is_nil,
}
use order_book_server.Queue.Plain.{plain_queue}
use order_book_server.OrderBook.Types.{Side, ask, bid, InnerOrder, is_zero}
use order_book_server.OrderBook.{matches, match_level, match_levels}
use order_book_server.OrderBook.Matching.Level.{Makers, total, Matched, match_level-MatchedBy}

abbrev pub prices : {V : Type 0} → List (ℕ × V) → List ℕ
prices [] = []
prices ((px, q) ∷ levels) = px ∷ prices levels

abbrev pub Sorted : (ℕ → ℕ → Type 0) → List ℕ → Type 0
Sorted R [] = Unit
Sorted R (x ∷ xs) = All (R x) xs × Sorted R xs

-- From the taker's best price on.
abbrev pub Worse : Side → ℕ → ℕ → Type 0
Worse ask x y = y < x
Worse bid x y = x < y

Sorted-snoc :
    (R : ℕ → ℕ → Type 0) (xs : List ℕ) (z : ℕ)
    → Sorted R xs
    → All (λ x. R x z) xs
    → Sorted R (xs ++ z ∷ [])
Sorted-snoc R [] z s below = (tt, tt)
Sorted-snoc R (x ∷ xs) z s below =
    (All-append (R x) xs (z ∷ []) s.0 (below.0, tt), Sorted-snoc R xs z s.1 below.1)

pub All-reverse : {A : Type 0} (P : A → Type 0) (xs : List A) → All P xs → All P (reverse xs)
All-reverse P [] all = tt
All-reverse P (x ∷ xs) all =
    subst (All P) (sym (reverse-cons x xs))
      (All-append P (reverse xs) (x ∷ []) (All-reverse P xs all.1) (all.0, tt))

pub Sorted-reverse :
    (R : ℕ → ℕ → Type 0) (xs : List ℕ) → Sorted R xs → Sorted (λ x y. R y x) (reverse xs)
Sorted-reverse R [] s = tt
Sorted-reverse R (x ∷ xs) s =
    subst (Sorted (λ a b. R b a)) (sym (reverse-cons x xs)) (
      Sorted-snoc (λ a b. R b a) (reverse xs) x (Sorted-reverse R xs s.1)
        (All-reverse (R x) xs s.0))

prices-append : {V : Type 0} (xs ys : List (ℕ × V)) → prices (xs ++ ys) ≡ prices xs ++ prices ys
prices-append [] ys = refl
prices-append ((px, q) ∷ xs) ys = ap (λ l. px ∷ l) (prices-append xs ys)

pub prices-reverse : {V : Type 0} (xs : List (ℕ × V)) → prices (reverse xs) ≡ reverse (prices xs)
prices-reverse [] = refl
prices-reverse ((px, q) ∷ xs) =
    ap prices (reverse-cons (px, q) xs)
    ∙ prices-append (reverse xs) ((px, q) ∷ [])
    ∙ ap (λ l. l ++ px ∷ []) (prices-reverse xs)
    ∙ sym (reverse-cons px (prices xs))

abbrev pub has_px : ℕ → List ℕ → Bool
has_px px [] = false
has_px px (k ∷ keys) = k == px || has_px px keys

has_px-append : (px : ℕ) (xs ys : List ℕ) → has_px px (xs ++ ys) ≡ (has_px px xs || has_px px ys)
has_px-append px [] ys = refl
has_px-append px (k ∷ xs) ys = ground (arith, has_px-append px xs ys)

matches-Worse :
    (side : Side) (limit x y : ℕ)
    → Worse side x y
    → matches side limit x ≡ false
    → matches side limit y ≡ false
matches-Worse ask limit x y worse out = ground arith
matches-Worse bid limit x y worse out = ground arith

-- Beyond the taker's limit: a bid below an ask's, or an ask above a bid's.
abbrev pub Beyond : {V : Type 0} → Side → ℕ → ℕ × V → Type 0
Beyond ask limit l = l.0 < limit
Beyond bid limit l = limit < l.0

matches-Beyond :
    {V : Type 0} (side : Side) (limit px : ℕ) (q : V)
    → matches side limit px ≡ false
    → Beyond side limit (px, q)
matches-Beyond ask limit px q out = ground arith
matches-Beyond bid limit px q out = ground arith

all-Beyond :
    {V : Type 0} (side : Side) (limit px : ℕ) (levels : List (ℕ × V))
    → All (Worse side px) (prices levels)
    → matches side limit px ≡ false
    → All (Beyond side limit) levels
all-Beyond side limit px [] worse out = tt
all-Beyond side limit px ((y, q) ∷ levels) worse out = (
  matches-Beyond side limit y q (matches-Worse side limit px y worse.0 out),
  all-Beyond side limit px levels worse.1 out,
)

module _ {O : Type 0} ⦃o : InnerOrder O⦄ where
  -- The size on a side.
  abbrev pub depth : List (ℕ × Makers O) → ℕ
  depth [] = 0
  depth ((px, q) ∷ levels) = total q + depth levels

  -- A level that the taker may leave: beyond its limit, or emptied and to be removed.
  abbrev pub Left : Side → ℕ → List ℕ → ℕ × Makers O → Type 0
  Left side limit keys l = Beyond side limit l ⊎ ((has_px l.0 keys ≡ true) × (l.1 ≡ []))

  Left-more :
      (side : Side) (limit : ℕ) (before keys : List ℕ) (levels : List (ℕ × Makers O))
      → All (Left side limit keys) levels
      → All (Left side limit (before ++ keys)) levels
  Left-more side limit before keys [] all = tt
  Left-more side limit before keys ((px, q) ∷ levels) all = (
    (elim all.0 [
      | inl beyond ↦ inl beyond
      | inr (key, empty) ↦ inr (ground (arith, has_px-append px before keys), empty)
    ]),
    Left-more side limit before keys levels all.1,
  )

  Beyond-Left :
      (side : Side) (limit : ℕ) (keys : List ℕ) (levels : List (ℕ × Makers O))
      → All (Beyond side limit) levels
      → All (Left side limit keys) levels
  Beyond-Left side limit keys [] all = tt
  Beyond-Left side limit keys (l ∷ levels) all =
      (inl all.0, Beyond-Left side limit keys levels all.1)

  -- What the walk over the levels makes of them and of the taker.
  pub record Walked (side : Side) (limit : ℕ) (levels : List (ℕ × Makers O)) (taker : O)
      (levels' : List (ℕ × Makers O)) (taker' : O) (keys : List ℕ) : Type 0 where
    pub conserved : o.sz taker + depth levels' ≡ o.sz taker' + depth levels
    pub used_up : (o.sz taker' ≡ 0) ⊎ All (Left side limit keys) levels'
    pub same_prices : prices levels' ≡ prices levels
    pub same_oid : o.oid taker' ≡ o.oid taker
    pub same_side : o.side taker' ≡ o.side taker
    pub same_px : o.limit_px taker' ≡ o.limit_px taker

  walk_on-Walked :
      (side : Side) (limit px : ℕ) (q q' : Makers O) (levels levels' : List (ℕ × Makers O))
      (taker mid taker' : O) (filled keys : List ℕ)
      → Matched q taker q' mid filled
      → ¬ (o.sz mid ≡ 0)
      → Walked side limit levels mid levels' taker' keys
      → Walked side limit
          ((px, q) ∷ levels)
          taker
          ((px, q') ∷ levels')
          taker'
          ((if is_nil q' then px ∷ [] else []) ++ keys)
  walk_on-Walked side limit px q q' levels levels' taker mid taker' filled keys level more rest =
      record {
        conserved = omega (arith, level.conserved, rest.conserved);
        used_up = used_up;
        same_prices = ap (λ l. px ∷ l) rest.same_prices;
        same_oid = rest.same_oid ∙ level.same_oid;
        same_side = rest.same_side ∙ level.same_side;
        same_px = rest.same_px ∙ level.same_px;
      }
    where
      empty : q' ≡ []
      empty = elim level.used_up [ inl spent ↦ absurd (more spent) | inr gone ↦ gone ]

      used_up :
          (o.sz taker' ≡ 0)
          ⊎ All (Left side limit ((if is_nil q' then px ∷ [] else []) ++ keys)) ((px, q') ∷ levels')
      used_up = elim rest.used_up [
        | inl spent ↦ inl spent
        | inr all ↦ inr (
          inr (
            ap (λ e. has_px px ((if is_nil e then px ∷ [] else []) ++ keys)) empty ∙ ground arith,
            empty,
          ),
          Left-more side limit (if is_nil q' then px ∷ [] else []) keys levels' all,
        )
      ]

  abbrev pub WalkedBy :
      Side → ℕ → List (ℕ × Makers O) → O → List (ℕ × Makers O) × O × List ℕ × List ℕ → Type 0
  WalkedBy side limit levels taker r = Walked side limit levels taker r.0 r.1 r.3

  enough_fuel : (q : Makers O) → length q < suc (length (values q))
  enough_fuel [] = omega arith
  enough_fuel ((k, m) ∷ q) = omega (arith, enough_fuel q)

  pub match_levels-WalkedBy :
      (side : Side) (limit : ℕ) (levels : List (ℕ × Makers O)) (taker : O)
      → Sorted (Worse side) (prices levels)
      → WalkedBy side limit levels taker (match_levels plain_queue side limit levels taker)
  unfolding match_levels
  match_levels-WalkedBy side limit [] taker sorted = record {
    conserved = refl;
    used_up = inr tt;
    same_prices = refl;
    same_oid = refl;
    same_side = refl;
    same_px = refl;
  }
  match_levels-WalkedBy side limit ((px, q) ∷ levels) taker sorted =
      let level = match_level-MatchedBy (suc (length (values q))) q taker (enough_fuel q) in
      elim (Bool-cases (matches side limit px)) [
        | inr out ↦ rw out (record {
          conserved = refl;
          used_up = inr (
            inl (matches-Beyond side limit px q out),
            Beyond-Left side limit [] levels (all-Beyond side limit px levels sorted.0 out),
          );
          same_prices = refl;
          same_oid = refl;
          same_side = refl;
          same_px = refl;
        })
        | inl yes_matches ↦
            elim (Bool-cases
              (is_zero (o.sz (match_level plain_queue (suc (length (values q))) q taker).1))) [
                | inl spent ↦
                    rw (yes_matches, spent)
                      (record {
                        conserved = omega (arith, level.conserved);
                        used_up = inl (ground arith);
                        same_prices = refl;
                        same_oid = level.same_oid;
                        same_side = level.same_side;
                        same_px = level.same_px;
                      })
                | inr more ↦
                    rw (yes_matches, more)
                      (walk_on-Walked side limit px q _ levels _ taker _ _ _ _ level (ground arith)
                        (match_levels-WalkedBy side limit levels
                          (match_level plain_queue (suc (length (values q))) q taker).1 sorted.1))
              ]
      ]
