-- ===== src/OrderBook/BTree.antt =====
-- `BTreeMap` of the standard library, with prices as keys: a list of entries in ascending order.
use mathlib.Core.List.{reverse-cons, map-append}
use order_book_server.Base.{
  ℕ, ◌≡◌, refl, sym, ap, ◌∙◌, inl, inr, Bool-cases, Option, none, some, List, [], ◌∷◌, ◌++◌, map,
  map_option, reverse, ltb, ◌==◌, if◌then◌else◌,
}

module _ {ℓ} {V : Type ℓ} where
  abbrev pub get : ℕ → List (ℕ × V) → Option V
  get px [] = none
  get px ((p, v) ∷ m) = if p == px then some v else get px m

  -- Puts the value under the key, in place of an old one.
  abbrev pub insert : ℕ → V → List (ℕ × V) → List (ℕ × V)
  insert px v [] = (px, v) ∷ []
  insert px v ((p, w) ∷ m) =
      if p == px
      then (px, v) ∷ m
      else if ltb px p
      then (px, v) ∷ (p, w) ∷ m
      else (p, w) ∷ insert px v m

  abbrev pub remove : ℕ → List (ℕ × V) → List (ℕ × V)
  remove px [] = []
  remove px ((p, v) ∷ m) = if p == px then m else (p, v) ∷ remove px m

  abbrev pub remove_all : List ℕ → List (ℕ × V) → List (ℕ × V)
  remove_all [] m = m
  remove_all (px ∷ keys) m = remove_all keys (remove px m)

-- A function on the values commutes with the operations.
module _ {ℓ κ} {V : Type ℓ} {W : Type κ} (f : V → W) where
  abbrev pub map_values : List (ℕ × V) → List (ℕ × W)
  map_values = map (λ l. (l.0, f l.1))

  pub get-map_values : (px : ℕ) (m : List (ℕ × V)) → get px (map_values m) ≡ map_option f (get px m)
  get-map_values px [] = refl
  get-map_values px ((p, v) ∷ m) = elim (Bool-cases (p == px)) [
    | inl hit ↦ rw hit
    | inr miss ↦ rw miss (get-map_values px m)
  ]

  pub insert-map_values :
      (px : ℕ) (v : V) (m : List (ℕ × V))
      → map_values (insert px v m) ≡ insert px (f v) (map_values m)
  insert-map_values px v [] = refl
  insert-map_values px v ((p, w) ∷ m) = elim (Bool-cases (p == px)) [
    | inl hit ↦ rw hit
    | inr miss ↦ rw miss (elim (Bool-cases (ltb px p)) [
      | inl below ↦ rw below
      | inr above ↦ rw above (ap (◌∷◌ (p, f w)) (insert-map_values px v m))
    ])
  ]

  pub remove-map_values :
      (px : ℕ) (m : List (ℕ × V)) → map_values (remove px m) ≡ remove px (map_values m)
  remove-map_values px [] = refl
  remove-map_values px ((p, v) ∷ m) = elim (Bool-cases (p == px)) [
    | inl hit ↦ rw hit
    | inr miss ↦ rw miss (ap (◌∷◌ (p, f v)) (remove-map_values px m))
  ]

  pub remove_all-map_values :
      (keys : List ℕ) (m : List (ℕ × V))
      → map_values (remove_all keys m) ≡ remove_all keys (map_values m)
  remove_all-map_values [] m = refl
  remove_all-map_values (px ∷ keys) m =
      remove_all-map_values keys (remove px m) ∙ ap (remove_all keys) (remove-map_values px m)

  pub reverse-map_values : (m : List (ℕ × V)) → map_values (reverse m) ≡ reverse (map_values m)
  reverse-map_values [] = refl
  reverse-map_values (l ∷ m) =
      ap map_values (reverse-cons l m)
      ∙ map-append (λ l. (l.0, f l.1)) (reverse m) (l ∷ [])
      ∙ ap (λ r. r ++ (l.0, f l.1) ∷ []) (reverse-map_values m)
      ∙ sym (reverse-cons (l.0, f l.1) (map_values m))
