-- ===== src/Base/Assoc.antt =====
-- Key-value data: hash maps as functions, and lists of entries with distinct keys, which are what
-- a keyed queue stands for.
use mathlib.Core.Path.{◌≡◌, refl}
use native.Mathlib.Omega.{arith}
use mathlib.Core.Bool.{Bool, true, false, ◌||◌}
use mathlib.Core.Option.{Option, none, some}
use mathlib.Core.List.{List, [], ◌∷◌, ◌++◌}
use order_book_server.Base.Tests.{Eq, if◌then◌else◌}

abbrev pub is_some {ℓ} : {A : Type ℓ} → Option A → Bool
is_some none = false
is_some (some a) = true

pub is_some_inv {ℓ} : {A : Type ℓ} (o : Option A) → is_some o ≡ true → (a : A) × (o ≡ some a)
is_some_inv none h = cc
is_some_inv (some a) h = (a, refl)

pub none_inv {ℓ} : {A : Type ℓ} (o : Option A) → is_some o ≡ false → o ≡ none
none_inv none h = refl
none_inv (some a) h = cc

abbrev pub map_option {ℓ κ} : {A : Type ℓ} {B : Type κ} → (A → B) → Option A → Option B
map_option f none = none
map_option f (some a) = some (f a)

abbrev pub is_nil {ℓ} : {A : Type ℓ} → List A → Bool
is_nil [] = true
is_nil (x ∷ xs) = false

abbrev pub values {ℓ κ} : {K : Type ℓ} {V : Type κ} → List (K × V) → List V
values [] = []
values ((k, v) ∷ es) = v ∷ values es

-- `HashMap` without its iteration order.
abbrev pub Map {ℓ κ} : Type ℓ → Type κ → Type (ℓ ⊔ κ)
Map K V = K → Option V

module _ {ℓ κ} {K : Type ℓ} {V : Type κ} ⦃e : Eq K⦄ where
  abbrev pub map_insert : Map K V → K → V → Map K V
  map_insert m k v j = if e.beq j k then some v else m j

  abbrev pub map_remove : Map K V → K → Map K V
  map_remove m k j = if e.beq j k then none else m j

  abbrev pub has_key : K → List (K × V) → Bool
  has_key k [] = false
  has_key k ((j, v) ∷ xs) = e.beq j k || has_key k xs

  -- No key occurs twice.
  abbrev pub DistinctKeys : List (K × V) → Type 0
  DistinctKeys [] = Unit
  DistinctKeys ((k, v) ∷ xs) = (has_key k xs ≡ false) × DistinctKeys xs

  abbrev pub lookup : K → List (K × V) → Option V
  lookup k [] = none
  lookup k ((j, v) ∷ xs) = if e.beq j k then some v else lookup k xs

  -- The entries before and after a change at one key.
  abbrev pub erase_key : K → List (K × V) → List (K × V)
  erase_key k [] = []
  erase_key k ((j, v) ∷ xs) = if e.beq j k then xs else (j, v) ∷ erase_key k xs

  abbrev pub put_before : K → K → V → List (K × V) → List (K × V)
  put_before b k v [] = []
  put_before b k v ((j, w) ∷ xs) =
      if e.beq j b then (k, v) ∷ (j, w) ∷ xs else (j, w) ∷ put_before b k v xs

  abbrev pub set_value : K → V → List (K × V) → List (K × V)
  set_value k v [] = []
  set_value k v ((j, w) ∷ xs) = if e.beq j k then (j, v) ∷ xs else (j, w) ∷ set_value k v xs

  pub has_key-append :
      (k : K) (xs ys : List (K × V)) → has_key k (xs ++ ys) ≡ (has_key k xs || has_key k ys)
  has_key-append k [] ys = refl
  has_key-append k (x ∷ xs) ys = ground (arith, has_key-append k xs ys)

  pub is_some-lookup : (k : K) (xs : List (K × V)) → is_some (lookup k xs) ≡ has_key k xs
  is_some-lookup k [] = refl
  is_some-lookup k (x ∷ xs) = ground (arith, is_some-lookup k xs, e.beq_iff k x.0)

  -- A new key may stand anywhere.
  pub DistinctKeys-insert :
      (k : K) (v : V) (xs ys : List (K × V))
      → DistinctKeys (xs ++ ys)
      → has_key k (xs ++ ys) ≡ false
      → DistinctKeys (xs ++ (k, v) ∷ ys)
  DistinctKeys-insert k v [] ys d new = (new, d)
  DistinctKeys-insert k v ((j, w) ∷ xs) ys d new = (
    ground (
      arith,
      has_key-append j xs ys,
      has_key-append j xs ((k, v) ∷ ys),
      e.beq_iff j k,
      e.beq_iff k j,
    ),
    DistinctKeys-insert k v xs ys d.1 (ground arith),
  )

  -- With its entry a key goes.
  pub DistinctKeys-delete :
      (k : K) (v : V) (xs ys : List (K × V))
      → DistinctKeys (xs ++ (k, v) ∷ ys)
      → DistinctKeys (xs ++ ys) × (has_key k (xs ++ ys) ≡ false)
  DistinctKeys-delete k v [] ys d = (d.1, d.0)
  DistinctKeys-delete k v ((j, w) ∷ xs) ys d =
      let (rest, gone) = DistinctKeys-delete k v xs ys d.1 in
      (
        (ground (arith, has_key-append j xs ys, has_key-append j xs ((k, v) ∷ ys)), rest),
        ground (arith, has_key-append j xs ((k, v) ∷ ys), e.beq_iff j k, e.beq_iff k j),
      )

  -- Where the key first stands behind `xs`, the operations reach through `xs`.
  pub erase_key_at :
      (k : K) (v : V) (xs ys : List (K × V))
      → has_key k xs ≡ false
      → erase_key k (xs ++ (k, v) ∷ ys) ≡ xs ++ ys
  erase_key_at k v [] ys h = ground (arith, e.beq_iff k k)
  erase_key_at k v ((j, w) ∷ xs) ys h =
      ground (arith, erase_key_at k v xs ys, e.beq_iff j k, e.beq_iff k j)

  pub put_before_at :
      (b k : K) (w v : V) (xs ys : List (K × V))
      → has_key b xs ≡ false
      → put_before b k v (xs ++ (b, w) ∷ ys) ≡ xs ++ (k, v) ∷ (b, w) ∷ ys
  put_before_at b k w v [] ys h = ground (arith, e.beq_iff b b)
  put_before_at b k w v ((j, u) ∷ xs) ys h =
      ground (arith, put_before_at b k w v xs ys, e.beq_iff j b, e.beq_iff b j)

  pub set_value_at :
      (k : K) (w v : V) (xs ys : List (K × V))
      → has_key k xs ≡ false
      → set_value k v (xs ++ (k, w) ∷ ys) ≡ xs ++ (k, v) ∷ ys
  set_value_at k w v [] ys h = ground (arith, e.beq_iff k k)
  set_value_at k w v ((j, u) ∷ xs) ys h =
      ground (arith, set_value_at k w v xs ys, e.beq_iff j k, e.beq_iff k j)

  pub lookup_at :
      (k : K) (v : V) (xs ys : List (K × V))
      → has_key k xs ≡ false
      → lookup k (xs ++ (k, v) ∷ ys) ≡ some v
  lookup_at k v [] ys h = ground (arith, e.beq_iff k k)
  lookup_at k v ((j, u) ∷ xs) ys h =
      ground (arith, lookup_at k v xs ys, e.beq_iff j k, e.beq_iff k j)
