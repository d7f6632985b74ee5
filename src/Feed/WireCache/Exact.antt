-- ===== src/Feed/WireCache/Exact.antt =====
-- The shared cache is not seen: what it gives out is what would be computed of the views at hand.
use order_book_server.Base.{
  ℕ, ◌+◌, ◌*◌, ◌≤◌, ◌≡◌, refl, sym, ap, subst, inl, inr, arith, Bool, true, not, ◌&&◌, Option, none,
  some, List, [], ◌∷◌, ltb, leb, length, nat_eq, lookup, erase_key, All, Bool-cases, Option-cases,
  sum_by,
}
use order_book_server.Base.Result.{ok, err}
use order_book_server.OrderBook.Types.{Text}
use order_book_server.Subscription.{Subscription, trades, l2_book, l4_book}
use order_book_server.Subscription.Equal.{subscription_eq}
use order_book_server.Feed.WireCache.{
  L2Book, L2Snapshots, Position, BookWireCache, Encoded, encode_view, is_cacheable, is_at, advance,
  cached_text, keep_encoded, answer_from, get, wire_levels,
}

lookup-All :
    (P : Subscription × Text → Type 0) (k : Subscription) (v : Text)
    (entries : List (Subscription × Text))
    → All P entries
    → lookup k entries ≡ some v
    → P (k, v)
lookup-All P k v [] all found = cc
lookup-All P k v ((j, w) ∷ entries) all found = elim (Bool-cases (subscription_eq.beq j k)) [
  | inl here ↦
      let key : j ≡ k = (subscription_eq.beq_iff j k).0 here in
      let value : w ≡ v = ground arith in
      subst (λ t. P (k, t)) value (subst (λ t. P (t, w)) key all.0)
  | inr on ↦ lookup-All P k v entries all.1 (ground arith)
]

abbrev pub text_bytes : Subscription × Text → ℕ
text_bytes (subscription, text) = length text

erase_key-absent :
    (k : Subscription) (entries : List (Subscription × Text))
    → lookup k entries ≡ none
    → erase_key k entries ≡ entries
erase_key-absent k [] absent = refl
erase_key-absent k ((j, w) ∷ entries) absent = elim (Bool-cases (subscription_eq.beq j k)) [
  | inl here ↦ absurd (ground arith)
  | inr on ↦ rw on (ap (◌∷◌ (j, w)) (erase_key-absent k entries (ground arith)))
]

module _ (print : ℕ → Text) (encode : L2Book → Option Text) where
  abbrev pub IsEncoded : L2Snapshots → ℕ → ℕ → Subscription × Text → Type 0
  IsEncoded snapshots time height (subscription, text) =
      encode_view print encode snapshots time height subscription ≡ ok (some text)

  -- Without a position there is no entry, and at a position every entry is the encoding of the view
  -- that the cache keeps.
  abbrev pub EntriesExact :
      Option Position → Option L2Snapshots → List (Subscription × Text) → Type 0
  EntriesExact none source entries = entries ≡ []
  EntriesExact (some position) none entries = ⊥
  EntriesExact (some (address, time, height)) (some source) entries =
      (source.address ≡ address) × All (IsEncoded source time height) entries

  pub record IsExact (cache : BookWireCache) : Type 0 where
    pub exact : EntriesExact cache.position cache.source cache.entries
    pub counted : cache.bytes ≡ sum_by text_bytes cache.entries
    pub bytes_bound : cache.bytes ≤ 2 * 1024 * 1024
    pub entries_bound : length cache.entries ≤ 1024

  -- While the cache keeps its views, nothing else stands at their address.
  abbrev pub OwnAddress : BookWireCache → L2Snapshots → Type 0
  OwnAddress cache snapshots =
      (source : L2Snapshots)
      → cache.source ≡ some source
      → source.address ≡ snapshots.address
      → source ≡ snapshots

  -- At the position of the views every entry is the encoding of them.
  at_views :
      (position : Option Position) (source : Option L2Snapshots)
      (entries : List (Subscription × Text)) (snapshots : L2Snapshots) (time height : ℕ)
      → EntriesExact position source entries
      → ((s : L2Snapshots) → source ≡ some s → s.address ≡ snapshots.address → s ≡ snapshots)
      → is_at print encode position snapshots time height ≡ true
      → All (IsEncoded snapshots time height) entries
  at_views none source entries snapshots time height exact own at = cc
  at_views (some position) none entries snapshots time height exact own at = absurd exact
  at_views (some (a, t, h)) (some s) entries snapshots time height exact own at =
      let address : s.address ≡ snapshots.address = ground (arith, exact.0) in
      let same : s ≡ snapshots = own s refl address in
      let times : t ≡ time = ground arith in
      let heights : h ≡ height = ground arith in
      subst (λ (u : L2Snapshots). All (IsEncoded u time height) entries) same
        (subst (λ (u : ℕ). All (IsEncoded s u height) entries) times
          (subst (λ (u : ℕ). All (IsEncoded s t u) entries) heights exact.1))

  advance-IsExact :
      (cache : BookWireCache) (snapshots : L2Snapshots) (time height : ℕ)
      → IsExact cache
      → IsExact (advance print encode cache snapshots time height)
  advance-IsExact cache snapshots time height valid =
      elim (Bool-cases (
        is_cacheable print encode cache.position time height
        && not (is_at print encode cache.position snapshots time height))) [
          | inl moves ↦ rw moves record {
            exact = (refl, tt);
            counted = refl;
            bytes_bound = omega arith;
            entries_bound = omega arith;
          }
          | inr stays ↦ rw stays valid
        ]

  advance-OwnAddress :
      (cache : BookWireCache) (snapshots : L2Snapshots) (time height : ℕ)
      → OwnAddress cache snapshots
      → OwnAddress (advance print encode cache snapshots time height) snapshots
  advance-OwnAddress cache snapshots time height own =
      elim (Bool-cases (
        is_cacheable print encode cache.position time height
        && not (is_at print encode cache.position snapshots time height))) [
          | inl moves ↦ rw moves (λ source h same. cc)
          | inr stays ↦ rw stays own
        ]

  -- Where entries may be kept, the cache has come to the position of the views.
  advance_at :
      (cache : BookWireCache) (snapshots : L2Snapshots) (time height : ℕ)
      → is_cacheable print encode cache.position time height ≡ true
      → is_at print encode
          (advance print encode cache snapshots time height).position
          snapshots
          time
          height
        ≡ true
  advance_at cache snapshots time height may =
      elim (Bool-cases (is_at print encode cache.position snapshots time height)) [
        | inl at ↦ rw (may, at) at
        | inr away ↦ rw (may, away) (ground arith)
      ]

  put_in :
      (position : Option Position) (source : Option L2Snapshots)
      (entries : List (Subscription × Text)) (snapshots : L2Snapshots) (time height : ℕ)
      (entry : Subscription × Text)
      → EntriesExact position source entries
      → ((s : L2Snapshots) → source ≡ some s → s.address ≡ snapshots.address → s ≡ snapshots)
      → is_at print encode position snapshots time height ≡ true
      → IsEncoded snapshots time height entry
      → EntriesExact position source (entry ∷ entries)
  put_in none source entries snapshots time height entry exact own at is = cc
  put_in (some position) none entries snapshots time height entry exact own at is = absurd exact
  put_in (some (a, t, h)) (some s) entries snapshots time height entry exact own at is =
      let address : s.address ≡ snapshots.address = ground (arith, exact.0) in
      let same : snapshots ≡ s = sym (own s refl address) in
      let times : time ≡ t = ground arith in
      let heights : height ≡ h = ground arith in
      (
        exact.0,
        (
          subst (λ (u : L2Snapshots). IsEncoded u t h entry) same
              (subst (λ (u : ℕ). IsEncoded snapshots u h entry) times
                (subst (λ (u : ℕ). IsEncoded snapshots time u entry) heights is)),
          exact.1,
        ),
      )

  keep_encoded-IsExact :
      (cacheable : Bool) (cache : BookWireCache) (subscription : Subscription)
      (snapshots : L2Snapshots) (time height : ℕ) (computed : Encoded)
      → IsExact cache
      → OwnAddress cache snapshots
      → (cacheable ≡ true → is_at print encode cache.position snapshots time height ≡ true)
      → cached_text print encode cache snapshots time height subscription ≡ none
      → encode_view print encode snapshots time height subscription ≡ computed
      → IsExact (keep_encoded print encode cacheable cache subscription computed)
  keep_encoded-IsExact cacheable cache subscription snapshots time height (err e) valid own at miss
        is =
      valid
  keep_encoded-IsExact cacheable cache subscription snapshots time height (ok none) valid own at
        miss is =
      valid
  keep_encoded-IsExact cacheable cache subscription snapshots time height (ok (some text)) valid own
        at miss is =
      elim (Bool-cases (
        cacheable
        && leb (cache.bytes + length text) (2 * 1024 * 1024)
        && ltb (length cache.entries) 1024)) [
          | inr full ↦ rw full valid
          | inl room ↦
              let here = at (ground arith) in
              let absent : lookup subscription cache.entries ≡ none = ground arith in
              rw (room, erase_key-absent subscription cache.entries absent)
                record {
                  exact =
                      put_in cache.position cache.source cache.entries snapshots time height
                        (subscription, text) valid.exact own here is;
                  counted = omega (arith, valid.counted);
                  bytes_bound = ground arith;
                  entries_bound = ground arith;
                }
        ]

  -- What `get` gives and leaves is right: the encoding of the views, and a cache that is exact.
  abbrev pub AnswersBy : BookWireCache × Encoded → Encoded → Type 0
  AnswersBy r computed = (r.1 ≡ computed) × IsExact r.0

  answer_from-AnswersBy :
      (cacheable : Bool) (cache : BookWireCache) (subscription : Subscription)
      (snapshots : L2Snapshots) (time height : ℕ)
      → IsExact cache
      → OwnAddress cache snapshots
      → (cacheable ≡ true → is_at print encode cache.position snapshots time height ≡ true)
      → AnswersBy
          (answer_from print encode cacheable cache subscription
            (encode_view print encode snapshots time height subscription)
            (cached_text print encode cache snapshots time height subscription))
          (encode_view print encode snapshots time height subscription)
  answer_from-AnswersBy cacheable cache subscription snapshots time height valid own at =
      let computed = encode_view print encode snapshots time height subscription in
      elim (Option-cases (cached_text print encode cache snapshots time height subscription)) [
        | inl miss ↦ rw miss (
          refl,
          keep_encoded-IsExact cacheable cache subscription snapshots time height computed valid own
              at miss refl,
        )
        | inr (text, hit) ↦
            let here : is_at print encode cache.position snapshots time height ≡ true =
              ground arith in
            let entries =
              at_views cache.position cache.source cache.entries snapshots time height valid.exact
                own here in
            let encoded =
              lookup-All (IsEncoded snapshots time height) subscription text cache.entries entries
                (ground arith) in
            rw hit (sym encoded, valid)
      ]

  -- Whatever was asked before, a book that is asked for is encoded from the views at hand, with their
  -- time and height, as without the cache, also where the encoding fails; and the cache keeps at most
  -- 1024 entries of 2 MiB together, all of them encodings of the views it stands at. While it keeps
  -- views, no others may stand at their address.
  pub get-AnswersBy :
      (cache : BookWireCache) (subscription : Subscription) (snapshots : L2Snapshots)
      (time height : ℕ)
      → IsExact cache
      → OwnAddress cache snapshots
      → AnswersBy
          (get print encode cache subscription snapshots time height)
          (encode_view print encode snapshots time height subscription)
  unfolding get encode_view wire_levels
  get-AnswersBy cache (trades coin) snapshots time height valid own = (refl, valid)
  get-AnswersBy cache (l4_book coin) snapshots time height valid own = (refl, valid)
  get-AnswersBy cache (l2_book coin f n m) snapshots time height valid own =
      answer_from-AnswersBy (is_cacheable print encode cache.position time height)
        (advance print encode cache snapshots time height) (l2_book coin f n m) snapshots time
        height (advance-IsExact cache snapshots time height valid)
        (advance-OwnAddress cache snapshots time height own)
        (advance_at cache snapshots time height)
