-- ===== src/OrderBook/Matching/Level.antt =====
-- The inner loop of `match_order`: the makers of one level in the order of their arrival.
use order_book_server.Base.{
  ℕ, zero, suc, ◌+◌, ◌≤◌, ◌<◌, ◌≡◌, refl, ap, ◌∙◌, ◌⊎◌, inl, inr, arith, true, List, [], ◌∷◌, ◌++◌,
  nat_eq, length, Bool-cases,
}
use order_book_server.Queue.Plain.{plain_queue}
use order_book_server.OrderBook.Types.{InnerOrder, is_zero}
use order_book_server.OrderBook.{match_level, after_fill}

abbrev pub Makers : Type 0 → Type 0
Makers O = List (ℕ × O)

module _ {O : Type 0} ⦃o : InnerOrder O⦄ where
  -- The size at a level.
  abbrev pub total : Makers O → ℕ
  total [] = 0
  total ((k, m) ∷ es) = o.sz m + total es

  abbrev pub oids : Makers O → List ℕ
  oids [] = []
  oids ((k, m) ∷ es) = o.oid m ∷ oids es

  -- The makers as they were, or with the first one reduced.
  abbrev pub Reduced : Makers O → Makers O → Type 0
  Reduced left after =
      (after ≡ left)
      ⊎ ((k : ℕ) × (m : O) × (m' : O) × (rest : Makers O) × (left ≡ (k, m) ∷ rest)
          × (after ≡ (k, m') ∷ rest)
          × (o.oid m' ≡ o.oid m)
          × (o.sz m' ≤ o.sz m))

  -- What a level and a taker have become.
  pub record Matched (es : Makers O) (taker : O) (after : Makers O) (taker' : O) (filled : List ℕ)
      : Type 0 where
    -- What the taker loses the makers lose.
    pub conserved : o.sz taker + total after ≡ o.sz taker' + total es
    -- It goes on until one of them is used up.
    pub used_up : (o.sz taker' ≡ 0) ⊎ (after ≡ [])
    -- The makers that are filled are the first to have come.
    pub in_time :
        (gone : Makers O) × (left : Makers O) × (es ≡ gone ++ left)
        × (filled ≡ oids gone)
        × Reduced left after
    pub same_oid : o.oid taker' ≡ o.oid taker
    pub same_side : o.side taker' ≡ o.side taker
    pub same_px : o.limit_px taker' ≡ o.limit_px taker

  stop-Matched :
      (k : ℕ) (m : O) (es : Makers O) (taker : O)
      → o.sz (o.fill taker m).0 ≡ 0
      → Matched
          ((k, m) ∷ es)
          taker
          (after_fill plain_queue ((k, (o.fill taker m).1) ∷ es) (o.fill taker m).1).0
          (o.fill taker m).0
          (after_fill plain_queue ((k, (o.fill taker m).1) ∷ es) (o.fill taker m).1).1
  stop-Matched k m es taker spent = elim (Bool-cases (is_zero (o.sz (o.fill taker m).1))) [
    | inl filled ↦ rw filled (record {
      conserved = ground (arith, o.fill_taker_sz taker m, o.fill_maker_sz taker m);
      used_up = inl spent;
      in_time = ((k, m) ∷ [], es, refl, ap (λ x. x ∷ []) (o.fill_maker_oid taker m), inl refl);
      same_oid = o.fill_taker_oid taker m;
      same_side = o.fill_taker_side taker m;
      same_px = o.fill_taker_px taker m;
    })
    | inr left ↦ rw left (record {
      conserved = ground (arith, o.fill_taker_sz taker m, o.fill_maker_sz taker m);
      used_up = inl spent;
      in_time = (
        [],
        (k, m) ∷ es,
        refl,
        refl,
        inr (
          k,
          m,
          (o.fill taker m).1,
          es,
          refl,
          refl,
          o.fill_maker_oid taker m,
          ground (arith, o.fill_maker_sz taker m),
        ),
      );
      same_oid = o.fill_taker_oid taker m;
      same_side = o.fill_taker_side taker m;
      same_px = o.fill_taker_px taker m;
    })
  ]

  -- A maker filled, and the rest of the level.
  next-Matched :
      (k : ℕ) (m : O) (es after : Makers O) (taker taker' : O) (filled : List ℕ)
      → ¬ (o.sz (o.fill taker m).0 ≡ 0)
      → Matched es (o.fill taker m).0 after taker' filled
      → Matched ((k, m) ∷ es) taker after taker' (o.oid (o.fill taker m).1 ∷ filled)
  next-Matched k m es after taker taker' filled more r =
      let (gone, left, split, oids_gone, reduced) = r.in_time in
      record {
        conserved = ground (arith, o.fill_taker_sz taker m, r.conserved);
        used_up = r.used_up;
        in_time = (
          (k, m) ∷ gone,
          left,
          ap (λ l. (k, m) ∷ l) split,
          (λ i. o.fill_maker_oid taker m i ∷ oids_gone i),
          reduced,
        );
        same_oid = r.same_oid ∙ o.fill_taker_oid taker m;
        same_side = r.same_side ∙ o.fill_taker_side taker m;
        same_px = r.same_px ∙ o.fill_taker_px taker m;
      }

  abbrev pub MatchedBy : Makers O → O → Makers O × O × List ℕ → Type 0
  MatchedBy es taker r = Matched es taker r.0 r.1 r.2

  -- With more fuel than there are makers, matching at a level goes on until the taker or the level is
  -- used up; the makers lose in size what the taker loses, those filled are the first to have come
  -- and are reported by their oids in this order, at most the next one is reduced, the others are as
  -- they were, and the taker keeps its oid, side and price.
  pub match_level-MatchedBy :
      (fuel : ℕ) (es : Makers O) (taker : O)
      → length es < fuel
      → MatchedBy es taker (match_level plain_queue fuel es taker)
  unfolding match_level
  match_level-MatchedBy zero es taker enough = absurd (omega arith)
  match_level-MatchedBy (suc fuel) [] taker enough = record {
    conserved = refl;
    used_up = inr refl;
    in_time = ([], [], refl, refl, inl refl);
    same_oid = refl;
    same_side = refl;
    same_px = refl;
  }
  match_level-MatchedBy (suc fuel) ((k, m) ∷ es) taker enough =
      elim (Bool-cases (is_zero (o.sz (o.fill taker m).0))) [
        | inl spent ↦ rw spent (stop-Matched k m es taker (ground arith))
        | inr more ↦
            let gone : is_zero (o.sz (o.fill taker m).1) ≡ true =
              ground (arith, o.fill_taker_sz taker m, o.fill_maker_sz taker m) in
            rw (more, gone)
              (next-Matched k m es _ taker _ _ (ground arith)
                (match_level-MatchedBy fuel es (o.fill taker m).0 (omega arith)))
      ]
