-- ===== src/Examples/Slots.antt =====
-- A slab that never uses a key again, so the interface of the `slab` package can be met.
use order_book_server.Base.{
  ℕ, zero, suc, ◌≡◌, refl, arith, Option, none, some, List, [], ◌∷◌, ◌++◌, if◌then◌else◌, ◌==◌,
  length,
}
use order_book_server.LinkedList.Slab.{SlabApi}

module _ {N : Type 0} where
  abbrev pub nth : List (Option N) → ℕ → Option N
  nth [] i = none
  nth (x ∷ s) zero = x
  nth (x ∷ s) (suc i) = nth s i

  abbrev pub put_at : List (Option N) → ℕ → Option N → List (Option N)
  put_at [] i n = []
  put_at (x ∷ s) zero n = n ∷ s
  put_at (x ∷ s) (suc i) n = x ∷ put_at s i n

  pub nth-length : (s : List (Option N)) → nth s (length s) ≡ none
  nth-length [] = refl
  nth-length (x ∷ s) = nth-length s

  pub nth-append :
      (s : List (Option N)) (n : N) (i : ℕ)
      → nth (s ++ some n ∷ []) i ≡ (if i == length s then some n else nth s i)
  nth-append [] n zero = refl
  nth-append [] n (suc i) = ground arith
  nth-append (x ∷ s) n zero = ground arith
  nth-append (x ∷ s) n (suc i) = ground (arith, nth-append s n i)

  pub nth-put_at :
      (s : List (Option N)) (i : ℕ) (m : N) (n : Option N) (j : ℕ)
      → nth s i ≡ some m
      → nth (put_at s i n) j ≡ (if j == i then n else nth s j)
  nth-put_at [] i m n j there = cc
  nth-put_at (x ∷ s) zero m n zero there = refl
  nth-put_at (x ∷ s) zero m n (suc j) there = ground arith
  nth-put_at (x ∷ s) (suc i) m n zero there = ground arith
  nth-put_at (x ∷ s) (suc i) m n (suc j) there = ground (arith, nth-put_at s i m n j there)

abbrev pub slots : {N : Type 0} → SlabApi N
slots {N = N} = record {
  Slab = List (Option N);
  new = [];
  get = nth;
  insert = λ s n. (s ++ some n ∷ [], length s);
  set = λ s i n. put_at s i (some n);
  remove = λ s i. put_at s i none;
  get-new = λ i. refl;
  insert_vacant = λ s n. nth-length s;
  get-insert = nth-append;
  get-set = λ s i m n j there. nth-put_at s i m (some n) j there;
  get-remove = λ s i m j there. nth-put_at s i m none j there;
}
