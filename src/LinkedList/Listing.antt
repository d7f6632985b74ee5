-- ===== src/LinkedList/Listing.antt =====
-- The invariant of a linked list, and the entries that it stands for.
use order_book_server.Base.{
  ℕ, ◌≡◌, refl, ap, false, Option, none, some, List, [], ◌∷◌, ◌++◌, arith, inl, inr, Bool-cases,
  if◌then◌else◌, Eq, is_some, map_insert, map_remove, has_key, DistinctKeys, has_key-append,
  DistinctKeys-insert, DistinctKeys-delete,
}
use order_book_server.LinkedList.Slab.{SlabApi}
use order_book_server.LinkedList.{Node, LinkedList}
use order_book_server.LinkedList.Chain.{
  Cells, first, last, has_sid, DistinctSids, Chain, has_sid-append,
}

module _ {K T : Type 0} where
  abbrev pub entries : Cells K T → List (K × T)
  entries [] = []
  entries ((s, k, v) ∷ xs) = (k, v) ∷ entries xs

  pub entries-append : (xs ys : Cells K T) → entries (xs ++ ys) ≡ entries xs ++ entries ys
  entries-append [] ys = refl
  entries-append ((s, k, v) ∷ xs) ys = ap (◌∷◌ (k, v)) (entries-append xs ys)

  pub DistinctSids-insert :
      (s : ℕ) (k : K) (v : T) (xs ys : Cells K T)
      → DistinctSids (xs ++ ys)
      → has_sid s (xs ++ ys) ≡ false
      → DistinctSids (xs ++ (s, k, v) ∷ ys)
  DistinctSids-insert s k v [] ys d new = (new, d)
  DistinctSids-insert s k v ((j, l, w) ∷ xs) ys d new = (
    ground (arith, has_sid-append j xs ys, has_sid-append j xs ((s, k, v) ∷ ys)),
    DistinctSids-insert s k v xs ys d.1 (ground arith),
  )

  pub DistinctSids-delete :
      (s : ℕ) (k : K) (v : T) (xs ys : Cells K T)
      → DistinctSids (xs ++ (s, k, v) ∷ ys)
      → DistinctSids (xs ++ ys)
  DistinctSids-delete s k v [] ys d = d.1
  DistinctSids-delete s k v ((j, l, w) ∷ xs) ys d = (
    ground (arith, has_sid-append j xs ys, has_sid-append j xs ((s, k, v) ∷ ys)),
    DistinctSids-delete s k v xs ys d.1,
  )

module _ {K T : Type 0} ⦃e : Eq K⦄ where
  -- the slab key of the cell with a key
  abbrev pub sid_of : K → Cells K T → Option ℕ
  sid_of k [] = none
  sid_of k ((s, j, v) ∷ xs) = if e.beq j k then some s else sid_of k xs

  pub is_some-sid_of : (k : K) (xs : Cells K T) → is_some (sid_of k xs) ≡ has_key k (entries xs)
  is_some-sid_of k [] = refl
  is_some-sid_of k ((s, j, v) ∷ xs) = ground (arith, is_some-sid_of k xs)

  -- A key that has a cell splits the cells there.
  pub sid_of-split :
      (k : K) (s : ℕ) (xs : Cells K T)
      → sid_of k xs ≡ some s
      → (ys : Cells K T) × (v : T) × (zs : Cells K T) × (xs ≡ ys ++ (s, k, v) ∷ zs)
        × (has_key k (entries ys) ≡ false)
  sid_of-split k s [] h = cc
  sid_of-split k s ((j, i, w) ∷ xs) h = elim (Bool-cases (e.beq i k)) [
    | inl hit ↦ ([], w, xs, ground (arith, e.beq_iff i k), refl)
    | inr miss ↦
        let (ys, v, zs, split, before) = sid_of-split k s xs (ground arith) in
        ((j, i, w) ∷ ys, v, zs, ap (◌∷◌ (j, i, w)) split, ground arith)
  ]

  -- A cell added at any place is found under its key, and the others as before.
  pub sid_of-insert :
      (k : K) (s : ℕ) (v : T) (ys zs : Cells K T) (i : K)
      → has_key k (entries ys) ≡ false
      → sid_of i (ys ++ (s, k, v) ∷ zs) ≡ (if e.beq i k then some s else sid_of i (ys ++ zs))
  sid_of-insert k s v [] zs i h = ground (arith, e.beq_iff i k, e.beq_iff k i)
  sid_of-insert k s v ((t, j, w) ∷ ys) zs i h =
      ground (arith, sid_of-insert k s v ys zs i, e.beq_iff i k, e.beq_iff j i, e.beq_iff j k)

  pub sid_of-delete :
      (k : K) (s : ℕ) (v : T) (ys zs : Cells K T) (i : K)
      → has_key k (entries (ys ++ zs)) ≡ false
      → has_key k (entries ys) ≡ false
      → (if e.beq i k then none else sid_of i (ys ++ (s, k, v) ∷ zs)) ≡ sid_of i (ys ++ zs)
  sid_of-delete k s v ys zs i gone before = elim (Bool-cases (e.beq i k)) [
    | inl same ↦ ground (arith, e.beq_iff i k, is_some-sid_of k (ys ++ zs))
    | inr other ↦ ground (arith, sid_of-insert k s v ys zs i)
  ]

  module _ (api : SlabApi (Node K T)) where
    pub record IsList (l : LinkedList api) (xs : Cells K T) : Type 0 where
      pub chain : Chain (api.get l.slab) none xs none
      pub head : l.head ≡ first xs none
      pub tail : l.tail ≡ last none xs
      pub sids : DistinctSids xs
      pub keys : DistinctKeys (entries xs)
      pub index : (k : K) → l.key_to_sid k ≡ sid_of k xs

    -- The list `l` is well formed and holds these entries, in this order.
    abbrev pub Holds : LinkedList api → List (K × T) → Type 0
    Holds l es = (xs : Cells K T) × IsList l xs × (entries xs ≡ es)

    -- What a new cell asks of the rest of the invariant, beside its links.
    pub IsList-insert :
        (l l' : LinkedList api) (ys zs : Cells K T) (s : ℕ) (k : K) (v : T)
        → IsList l (ys ++ zs)
        → has_sid s (ys ++ zs) ≡ false
        → has_key k (entries (ys ++ zs)) ≡ false
        → l'.key_to_sid ≡ map_insert l.key_to_sid k s
        → Chain (api.get l'.slab) none (ys ++ (s, k, v) ∷ zs) none
        → l'.head ≡ first (ys ++ (s, k, v) ∷ zs) none
        → l'.tail ≡ last none (ys ++ (s, k, v) ∷ zs)
        → IsList l' (ys ++ (s, k, v) ∷ zs)
    IsList-insert l l' ys zs s k v is vacant fresh keyed c hd tl = record {
      chain = c;
      head = hd;
      tail = tl;
      sids = DistinctSids-insert s k v ys zs is.sids vacant;
      keys = rw entries-append (
          DistinctKeys-insert k v (entries ys) (entries zs) (rw entries-append at is.keys)
            (rw entries-append at fresh));
      index = λ i. rw keyed (
          ground (
            arith,
            is.index i,
            sid_of-insert k s v ys zs i,
            ap (has_key k) (entries-append ys zs),
            has_key-append k (entries ys) (entries zs),
          ));
    }

    -- What a cell leaves of the rest of the invariant when it goes.
    pub IsList-delete :
        (l l' : LinkedList api) (ys zs : Cells K T) (s : ℕ) (k : K) (v : T)
        → IsList l (ys ++ (s, k, v) ∷ zs)
        → l'.key_to_sid ≡ map_remove l.key_to_sid k
        → Chain (api.get l'.slab) none (ys ++ zs) none
        → l'.head ≡ first (ys ++ zs) none
        → l'.tail ≡ last none (ys ++ zs)
        → IsList l' (ys ++ zs)
    IsList-delete l l' ys zs s k v is keyed c hd tl =
        let (keys, gone) =
          DistinctKeys-delete k v (entries ys) (entries zs) (rw entries-append at is.keys) in
        record {
          chain = c;
          head = hd;
          tail = tl;
          sids = DistinctSids-delete s k v ys zs is.sids;
          keys = rw entries-append keys;
          index = λ i.
              let absent : has_key k (entries ys) ≡ false =
                ground (arith, has_key-append k (entries ys) (entries zs)) in
              let gone' : has_key k (entries (ys ++ zs)) ≡ false = rw entries-append gone in
              rw (keyed, is.index i) (sid_of-delete k s v ys zs i gone' absent);
        }
