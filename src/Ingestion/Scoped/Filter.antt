-- ===== src/Ingestion/Scoped/Filter.antt =====
-- Reading a block within a scope gives what reading it whole and dropping the other coins would.
use order_book_server.Base.{
  ◌≡◌, refl, sym, ap, ◌∙◌, inl, inr, arith, true, Option, some, List, [], ◌∷◌, if◌then◌else◌,
  length, ◌>>=◌, map_option, Bool-cases, Option-cases,
}
use order_book_server.OrderBook.Types.{Text}
use order_book_server.Ingestion.Batches.{Batch, with_wire_bytes}
use order_book_server.Subscription.{CoinScope, in_scope}
use order_book_server.Ingestion.Scoped.{Decoder, keep_events, scoped, parse_in_scope}

module _ {E : Type 0} (coin_of : E → Text) (d : Decoder E) where
  -- the events of the texts, all of them
  abbrev pub all_events : List Text → Option (List E)
  all_events [] = some []
  all_events (text ∷ texts) =
      let rest = all_events texts in d.event text >>= λ e. rest >>= λ es. some (e ∷ es)

  -- Where `serde_json` reads a line as a batch, it reads it as a raw one with the same position whose
  -- texts are those events; and where it reads a text as an event, it reads the coin of it.
  pub record IsConsistent : Type 0 where
    pub raw_of :
        (line : Text) (b : Batch E)
        → d.batch line ≡ some b
        → (texts : List Text) × (d.raw line
            ≡ some (record {
              local_time = b.local_time;
              block_time = b.block_time;
              block_number = b.block_number;
              events = texts;
            }))
          × (all_events texts ≡ some b.events)
    pub coin_of_event :
        (text : Text) (e : E) → d.event text ≡ some e → d.coin text ≡ some (coin_of e)

  abbrev pub of_scope : CoinScope → List E → List E
  of_scope scope [] = []
  of_scope scope (e ∷ es) =
      if in_scope scope (coin_of e) then e ∷ of_scope scope es else of_scope scope es

  of_scope_all : (scope : CoinScope) (es : List E) → scope.all ≡ true → of_scope scope es ≡ es
  unfolding in_scope
  of_scope_all scope [] all = refl
  of_scope_all scope (e ∷ es) all = rw all (ap (◌∷◌ e) (of_scope_all scope es all))

  keep_events-of_scope :
      (laws : IsConsistent) (scope : CoinScope) (texts : List Text) (es : List E)
      → all_events texts ≡ some es
      → keep_events d scope texts ≡ some (of_scope scope es)
  keep_events-of_scope laws scope [] es all =
      let same : [] ≡ es = cc in ap (λ t. some (of_scope scope t)) same
  keep_events-of_scope laws scope (text ∷ texts) es all = elim (Option-cases (d.event text)) [
    | inl unreadable ↦ absurd (ground arith)
    | inr (e, read) ↦ elim (Option-cases (all_events texts)) [
      | inl unreadable ↦ absurd (ground arith)
      | inr (rest, others) ↦
          let same : e ∷ rest ≡ es = ground arith in
          let ih = keep_events-of_scope laws scope texts rest others in
          let probe = laws.coin_of_event text e read in
          rw (← same) (elim (Bool-cases (in_scope scope (coin_of e))) [
            | inl inside ↦ rw (probe, inside, read, ih) refl
            | inr outside ↦ rw (probe, outside, ih) refl
          ])
    ]
  ]

  -- A block that reads as a whole is read within any scope as the same block with the events of the
  -- other coins left out, in the same order, and with the length of the whole line as its bytes.
  pub parse_in_scope-of_scope :
      (laws : IsConsistent) (scope : CoinScope) (line : Text) (b : Batch E)
      → d.batch line ≡ some b
      → parse_in_scope d scope line
        ≡ some (record {
          local_time = b.local_time;
          block_time = b.block_time;
          block_number = b.block_number;
          events = of_scope scope b.events;
          wire_bytes = length line;
        })
  unfolding parse_in_scope
  parse_in_scope-of_scope laws scope line b read =
      let (texts, raw, all) = laws.raw_of line b read in
      let whole = map_option (λ b. with_wire_bytes b (length line)) (d.batch line) in
      let narrow = (d.raw line >>= λ raw. scoped d scope (length line) raw) in
      let with_events : List E → Option (Batch E) =
        λ es. some (record b { events = es; wire_bytes = length line }) in
      elim (Bool-cases scope.all) [
        | inl everything ↦
            ap (λ t. if t then whole else narrow) everything
            ∙ (ap (map_option (λ b. with_wire_bytes b (length line))) read
                ∙ ap with_events (sym (of_scope_all scope b.events everything)))
        | inr some_coins ↦
            ap (λ t. if t then whole else narrow) some_coins
            ∙ rw (raw, keep_events-of_scope laws scope texts b.events all) refl
      ]
