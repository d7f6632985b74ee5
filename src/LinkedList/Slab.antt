-- ===== src/LinkedList/Slab.antt =====
-- The `slab` package, which linked_list.rs stores its nodes in: not code of the repository, so it
-- is an interface. A slab holds values at keys that it chooses; `get` is indexing, which panics at
-- a vacant key.
use order_book_server.Base.{ℕ, ◌≡◌, Option, none, some, if◌then◌else◌, ◌==◌}

pub record SlabApi (N : Type 0) : Type 1 where
  pub Slab : Type 0
  pub new : Slab
  pub get : Slab → ℕ → Option N
  -- `insert` returns the key that it chose.
  pub insert : Slab → N → Slab × ℕ
  -- A write through `IndexMut`.
  pub set : Slab → ℕ → N → Slab
  pub remove : Slab → ℕ → Slab
  pub get-new : (i : ℕ) → get new i ≡ none
  pub insert_vacant : (s : Slab) (n : N) → get s (insert s n).1 ≡ none
  pub get-insert :
      (s : Slab) (n : N) (i : ℕ)
      → get (insert s n).0 i ≡ (if i == (insert s n).1 then some n else get s i)
  pub get-set :
      (s : Slab) (i : ℕ) (m n : N) (j : ℕ)
      → get s i ≡ some m
      → get (set s i n) j ≡ (if j == i then some n else get s j)
  pub get-remove :
      (s : Slab) (i : ℕ) (m : N) (j : ℕ)
      → get s i ≡ some m
      → get (remove s i) j ≡ (if j == i then none else get s j)
