-- ===== src/OrderBook/Types.antt =====
-- server/src/order_book/types.rs: sides, the newtypes over `u64`, which are numbers here, and the
-- trait `InnerOrder` with what the book relies on.
use order_book_server.Base.{
  ℕ, ◌+◌, ◌-◌, ◌%◌, ◌^◌, ◌≡◌, Bool, true, false, List, [], ◌∷◌, ◌&&◌, refl, subst, Eq, arith, ltb,
  ◌==◌, min,
}

pub data Side : Type 0 where
  ask bid : Side

-- the bytes of a `String`
abbrev pub Text : Type 0
Text = List ℕ

-- `Sz::is_positive` and `Sz::is_zero`
abbrev pub is_positive : ℕ → Bool
is_positive sz = ltb 0 sz

abbrev pub is_zero : ℕ → Bool
is_zero sz = sz == 0

-- `Sz::decrement_sz`, which saturates at 0 as `-` does
abbrev pub saturating_sub : ℕ → ℕ → ℕ
saturating_sub sz dec = sz - dec

-- `Add for Sz`, in a release build: it wraps round at 2^64
abbrev pub add_sz : ℕ → ℕ → ℕ
add_sz a b = (a + b) % 2 ^ 64

pub record InnerOrder (O : Type 0) : Type 0 where
  pub coin : O → Text
  pub oid : O → ℕ
  pub side : O → Side
  pub limit_px : O → ℕ
  pub sz : O → ℕ
  pub decrement_sz : O → ℕ → O
  -- the taker and the maker after the fill, and the size matched
  pub fill : O → O → O × O × ℕ
  pub modify_sz : O → ℕ → O
  pub convert_trigger : O → ℕ → O
  pub fill_taker_sz : (t m : O) → sz (fill t m).0 ≡ sz t - min (sz t) (sz m)
  pub fill_maker_sz : (t m : O) → sz (fill t m).1 ≡ sz m - min (sz t) (sz m)
  pub fill_taker_oid : (t m : O) → oid (fill t m).0 ≡ oid t
  pub fill_taker_side : (t m : O) → side (fill t m).0 ≡ side t
  pub fill_taker_px : (t m : O) → limit_px (fill t m).0 ≡ limit_px t
  pub fill_maker_oid : (t m : O) → oid (fill t m).1 ≡ oid m
  pub fill_maker_side : (t m : O) → side (fill t m).1 ≡ side m
  pub fill_maker_px : (t m : O) → limit_px (fill t m).1 ≡ limit_px m
  pub modify_sz_sz : (a : O) (s : ℕ) → sz (modify_sz a s) ≡ s
  pub modify_sz_oid : (a : O) (s : ℕ) → oid (modify_sz a s) ≡ oid a
  pub modify_sz_side : (a : O) (s : ℕ) → side (modify_sz a s) ≡ side a
  pub modify_sz_px : (a : O) (s : ℕ) → limit_px (modify_sz a s) ≡ limit_px a

abbrev pub text_beq : Text → Text → Bool
text_beq [] [] = true
text_beq [] (b ∷ ys) = false
text_beq (a ∷ xs) [] = false
text_beq (a ∷ xs) (b ∷ ys) = a == b && text_beq xs ys

pub text_beq→eq : (a b : Text) → text_beq a b ≡ true → a ≡ b
text_beq→eq [] [] h = refl
text_beq→eq [] (b ∷ ys) h = cc
text_beq→eq (a ∷ xs) [] h = cc
text_beq→eq (a ∷ xs) (b ∷ ys) h =
    let same : a ≡ b = ground arith in
    let rest : xs ≡ ys = text_beq→eq xs ys (ground arith) in λ i. same i ∷ rest i

pub text_beq_refl : (a : Text) → text_beq a a ≡ true
text_beq_refl [] = refl
text_beq_refl (a ∷ xs) = ground (arith, text_beq_refl xs)

-- `Coin` and `String` by their bytes
instance abbrev pub text_eq : Eq Text
text_eq = record {
  beq = text_beq;
  beq_iff =
      λ a b. (text_beq→eq a b, λ same. subst (λ c. text_beq a c ≡ true) same (text_beq_refl a));
}
