-- ===== src/Market/Cache/Coins.antt =====
-- The views that a refresh computes are those of the books, for the coins that it is asked for.
use order_book_server.Base.{
  ℕ, ◌≡◌, refl, sym, ap, subst, ◌∙◌, ◌⊎◌, inl, inr, arith, Bool, true, false, Option, none, some,
  List, [], ◌∷◌, ◌&&◌, is_some, if◌then◌else◌, nat_eq, Map, map_insert, lookup, Bool-cases,
  Option-cases, ◌>>=◌,
}
use order_book_server.Queue.{QueueApi}
use order_book_server.OrderBook.Types.{Text, text_eq, text_beq, InnerOrder}
use order_book_server.OrderBook.{OrderBook}
use order_book_server.Orders.{l4_order}
use order_book_server.Market.{member, OrderBooks, Views, views, refresh_from}

module _ {O : Type 0} ⦃o : InnerOrder O⦄ (log10_floor : ℕ → ℕ) (api : QueueApi ℕ O) where
  -- The views of a book that may not be there.
  abbrev pub view_of : Option (OrderBook api) → Option (Views api)
  view_of none = none
  view_of (some book) = views api log10_floor book

  -- What the cache holds for a coin after a refresh.
  abbrev pub Refreshed :
      OrderBooks api → List Text → Map Text (Views api) → Map Text (Views api) → Type 0
  Refreshed books dirty cache cache' =
      (c : Text)
      → cache' c
        ≡ (if is_some (lookup c books) && member c dirty then view_of (lookup c books) else cache c)

  step-inv :
      (coin : Text) (flag : Bool) (view : Option (Views api)) (rest cache' : Map Text (Views api))
      → (if flag then (view >>= λ v. some (map_insert rest coin v)) else some rest) ≡ some cache'
      → ((flag ≡ true) × (v : Views api) × (view ≡ some v) × (cache' ≡ map_insert rest coin v))
        ⊎ ((flag ≡ false) × (cache' ≡ rest))
  step-inv coin true none rest cache' ran = ground arith
  step-inv coin true (some v) rest cache' ran = inl (refl, v, refl, ground arith)
  step-inv coin false view rest cache' ran = inr (refl, ground arith)

  -- One step of the refresh, for the coin asked about or another.
  step-Refreshed :
      (coin c : Text) (book : OrderBook api) (found : Option (OrderBook api)) (dirty : List Text)
      (cache rest cache' : Map Text (Views api)) (view : Option (Views api))
      → views api log10_floor book ≡ view
      → rest c ≡ (if is_some found && member c dirty then view_of found else cache c)
      → (if member coin dirty then (view >>= λ v. some (map_insert rest coin v)) else some rest)
        ≡ some cache'
      → (text_beq coin c ≡ true) ⊎ (text_beq coin c ≡ false)
      → cache' c ≡ (
          if is_some (if text_beq coin c then some book else found) && member c dirty
          then view_of (if text_beq coin c then some book else found)
          else cache c)
  step-Refreshed coin c book found dirty cache rest cache' view shown before ran (inl same) =
      let one : coin ≡ c = (text_eq.beq_iff coin c).0 same in
      let same' : text_beq c coin ≡ true = (text_eq.beq_iff c coin).1 (sym one) in
      elim (step-inv coin (member coin dirty) view rest cache' ran) [
        | inl (marked, v, shows, shape) ↦
            let marked' : member c dirty ≡ true = subst (λ x. member x dirty ≡ true) one marked in
            rw (same, marked')
              (ap (λ m. m c) shape
                ∙ (ap (λ b. if b then some v else rest c) same' ∙ sym (shown ∙ shows)))
        | inr (clean, shape) ↦
            let clean' : member c dirty ≡ false = subst (λ x. member x dirty ≡ false) one clean in
            rw (same, clean')
              (ap (λ m. m c) shape ∙ (before ∙ (rw clean' (either (is_some found)))))
      ]
    where
      either : (b : Bool) → (if b && false then view_of found else cache c) ≡ cache c
      either true = refl
      either false = refl
  step-Refreshed coin c book found dirty cache rest cache' view shown before ran (inr other) =
      let other' : text_beq c coin ≡ false =
        ground (arith, text_eq.beq_iff coin c, text_eq.beq_iff c coin) in
      elim (step-inv coin (member coin dirty) view rest cache' ran) [
        | inl (marked, v, shows, shape) ↦
            rw other
              (ap (λ m. m c) shape ∙ (ap (λ b. if b then some v else rest c) other' ∙ before))
        | inr (clean, shape) ↦ rw other (ap (λ m. m c) shape ∙ before)
      ]

  pub refresh_from-Refreshed :
      (books : OrderBooks api) (dirty : List Text) (cache cache' : Map Text (Views api))
      → refresh_from api log10_floor books dirty cache ≡ some cache'
      → Refreshed books dirty cache cache'
  unfolding refresh_from
  refresh_from-Refreshed [] dirty cache cache' ran c = ground arith
  refresh_from-Refreshed ((coin, book) ∷ books) dirty cache cache' ran c =
      elim (Option-cases (refresh_from api log10_floor books dirty cache)) [
        | inl panic ↦ ground arith
        | inr (rest, from) ↦
            step-Refreshed coin c book (lookup c books) dirty cache rest cache'
              (views api log10_floor book) refl
              (refresh_from-Refreshed books dirty cache rest from c)
              (ap
                  (λ r. r >>= λ rest.
                    if member coin dirty
                    then (views api log10_floor book >>= λ view. some (map_insert rest coin view))
                    else some rest)
                  (sym from)
                ∙ ran)
              (Bool-cases (text_beq coin c))
      ]
