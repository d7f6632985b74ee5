-- ===== src/LinkedList/Chain.antt =====
-- What the nodes of a linked list stand for: the cells in order, each with the slab key of its
-- node. A node's links are those of its neighbours.
use order_book_server.Base.{
  ℕ, ◌≡◌, refl, Bool, true, false, ◌||◌, Option, none, some, List, [], ◌∷◌, ◌++◌, arith, ◌==◌,
  ==_iff,
}
use order_book_server.LinkedList.{Node}

-- slab key, key and value
abbrev pub Cells : Type 0 → Type 0 → Type 0
Cells K T = List (ℕ × K × T)

abbrev pub node : {K T : Type 0} → K → T → Option ℕ → Option ℕ → Node K T
node k v next prev = record { key = k; value = v; next = next; prev = prev }

module _ {K T : Type 0} where
  -- the slab key of the first cell, or else `stop`
  abbrev pub first : Cells K T → Option ℕ → Option ℕ
  first [] stop = stop
  first ((s, k, v) ∷ xs) stop = some s

  -- the slab key of the last cell, or else `prev`
  abbrev pub last : Option ℕ → Cells K T → Option ℕ
  last prev [] = prev
  last prev ((s, k, v) ∷ xs) = last (some s) xs

  abbrev pub has_sid : ℕ → Cells K T → Bool
  has_sid i [] = false
  has_sid i ((s, k, v) ∷ xs) = (i == s) || has_sid i xs

  abbrev pub DistinctSids : Cells K T → Type 0
  DistinctSids [] = Unit
  DistinctSids ((s, k, v) ∷ xs) = (has_sid s xs ≡ false) × DistinctSids xs

  -- the nodes of `xs`, from behind `prev` up to `stop`
  abbrev pub Chain : (ℕ → Option (Node K T)) → Option ℕ → Cells K T → Option ℕ → Type 0
  Chain g prev [] stop = Unit
  Chain g prev ((s, k, v) ∷ xs) stop =
      (g s ≡ some (node k v (first xs stop) prev)) × Chain g (some s) xs stop

  pub has_sid-append :
      (i : ℕ) (xs ys : Cells K T) → has_sid i (xs ++ ys) ≡ (has_sid i xs || has_sid i ys)
  has_sid-append i [] ys = refl
  has_sid-append i (x ∷ xs) ys = ground (arith, has_sid-append i xs ys)

  pub first-append :
      (xs ys : Cells K T) (stop : Option ℕ) → first (xs ++ ys) stop ≡ first xs (first ys stop)
  first-append [] ys stop = refl
  first-append (x ∷ xs) ys stop = refl

  pub last-append :
      (prev : Option ℕ) (xs ys : Cells K T) → last prev (xs ++ ys) ≡ last (last prev xs) ys
  last-append prev [] ys = refl
  last-append prev ((s, k, v) ∷ xs) ys = last-append (some s) xs ys

  pub DistinctSids-append :
      (xs ys : Cells K T)
      → DistinctSids (xs ++ ys)
      → DistinctSids xs × DistinctSids ys × ((i : ℕ) → has_sid i xs ≡ true → has_sid i ys ≡ false)
  DistinctSids-append [] ys d = (tt, d, λ i h. cc)
  DistinctSids-append ((s, k, v) ∷ xs) ys d =
      let (dx, dy, apart) = DistinctSids-append xs ys d.1 in
      (
        (ground (arith, has_sid-append s xs ys), dx),
        dy,
        λ i h. ground (arith, has_sid-append s xs ys, apart i),
      )

  pub DistinctSids-join :
      (xs ys : Cells K T)
      → DistinctSids xs
      → DistinctSids ys
      → ((i : ℕ) → has_sid i xs ≡ true → has_sid i ys ≡ false)
      → DistinctSids (xs ++ ys)
  DistinctSids-join [] ys dx dy apart = dy
  DistinctSids-join ((s, k, v) ∷ xs) ys dx dy apart = (
    ground (arith, has_sid-append s xs ys, apart s),
    DistinctSids-join xs ys dx.1 dy (λ i h. ground (arith, apart i)),
  )

  module _ (g : ℕ → Option (Node K T)) where
    -- A chain survives any change that spares its own nodes.
    pub Chain-frame :
        (h : ℕ → Option (Node K T)) (prev : Option ℕ) (xs : Cells K T) (stop : Option ℕ)
        → Chain g prev xs stop
        → ((i : ℕ) → has_sid i xs ≡ true → h i ≡ g i)
        → Chain h prev xs stop
    Chain-frame h prev [] stop c same = tt
    Chain-frame h prev ((s, k, v) ∷ xs) stop c same = (
      ground (arith, same s, ==_iff s s),
      Chain-frame h (some s) xs stop c.1 (λ i e. same i (ground arith)),
    )

    pub Chain-split :
        (prev : Option ℕ) (xs ys : Cells K T) (stop : Option ℕ)
        → Chain g prev (xs ++ ys) stop
        → Chain g prev xs (first ys stop) × Chain g (last prev xs) ys stop
    Chain-split prev [] ys stop c = (tt, c)
    Chain-split prev ((s, k, v) ∷ xs) ys stop c =
        let (front, back) = Chain-split (some s) xs ys stop c.1 in
        ((rw first-append at c.0, front), back)

    pub Chain-join :
        (prev : Option ℕ) (xs ys : Cells K T) (stop : Option ℕ)
        → Chain g prev xs (first ys stop)
        → Chain g (last prev xs) ys stop
        → Chain g prev (xs ++ ys) stop
    Chain-join prev [] ys stop front back = back
    Chain-join prev ((s, k, v) ∷ xs) ys stop front back =
        (rw first-append front.0, Chain-join (some s) xs ys stop front.1 back)

    -- A node that the slab does not hold is none of the chain's.
    pub Chain-vacant :
        (i : ℕ) (prev : Option ℕ) (xs : Cells K T) (stop : Option ℕ)
        → Chain g prev xs stop
        → g i ≡ none
        → has_sid i xs ≡ false
    Chain-vacant i prev [] stop c vacant = refl
    Chain-vacant i prev ((s, k, v) ∷ xs) stop c vacant =
        ground (arith, Chain-vacant i (some s) xs stop c.1 vacant)
