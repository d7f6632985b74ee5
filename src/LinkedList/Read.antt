-- ===== src/LinkedList/Read.antt =====
-- What a linked list shows: `new`, `is_empty`, `to_vec`, `fold` and the mutable references.
use order_book_server.Base.{
  ℕ, zero, suc, ◌<◌, ◌≡◌, refl, sym, ◌∙◌, ap, true, false, Option, none, some, List, [], ◌∷◌, ◌++◌,
  arith, length, Eq, is_some, is_some_inv, none_inv, has_key, ==_iff, lookup, set_value,
  set_value_at, lookup_at, DistinctKeys, has_key-append, values, is_nil,
}
use mathlib.Core.List.{foldl, append_assoc, append-nil}
use order_book_server.LinkedList.Slab.{SlabApi}
use order_book_server.LinkedList.{
  Node, LinkedList, new, is_empty, fold_from, fold, to_vec, value_ref_mut,
  head_value_ref_mut_unsafe, node_value_mut,
}
use order_book_server.LinkedList.Chain.{
  Cells, node, first, last, DistinctSids, Chain, has_sid-append, Chain-frame, Chain-join,
  Chain-split, last-append, first-append, DistinctSids-append,
}
use order_book_server.LinkedList.Listing.{
  entries, entries-append, sid_of, is_some-sid_of, sid_of-split, IsList, Holds,
}
use order_book_server.LinkedList.Add.{has_key-index}

module _ {K T : Type 0} (api : SlabApi (Node K T)) where
  -- With fuel for each cell and one round more the loop ends, and has folded every value in order.
  fold_from-foldl {ℓ} :
      {A : Type ℓ} (fuel : ℕ) (l : LinkedList api) (prev : Option ℕ) (xs : Cells K T) (acc : A)
      (f : A → T → A)
      → Chain (api.get l.slab) prev xs none
      → length (entries xs) < fuel
      → fold_from api fuel l (first xs none) acc f ≡ some (foldl f acc (values (entries xs)))
  unfolding fold_from
  fold_from-foldl zero l prev xs acc f c enough = absurd (omega arith)
  fold_from-foldl (suc fuel) l prev [] acc f c enough = refl
  fold_from-foldl (suc fuel) l prev ((s, k, v) ∷ xs) acc f c enough =
      rw c.0 (fold_from-foldl fuel l (some s) xs (f acc v) f c.1 (omega arith))

  foldl-snoc : (acc vs : List T) → foldl (λ res v. res ++ v ∷ []) acc vs ≡ acc ++ vs
  foldl-snoc acc [] = sym (append-nil acc)
  foldl-snoc acc (v ∷ vs) = foldl-snoc (acc ++ v ∷ []) vs ∙ append_assoc acc (v ∷ []) vs

module _ {K T : Type 0} ⦃e : Eq K⦄ where
  -- A new value at a cell changes neither slab keys nor keys.
  DistinctSids-revalue :
      (s : ℕ) (k : K) (v w : T) (ys zs : Cells K T)
      → DistinctSids (ys ++ (s, k, v) ∷ zs)
      → DistinctSids (ys ++ (s, k, w) ∷ zs)
  DistinctSids-revalue s k v w [] zs d = d
  DistinctSids-revalue s k v w ((t, j, u) ∷ ys) zs d = (
    ground (arith, has_sid-append t ys ((s, k, v) ∷ zs), has_sid-append t ys ((s, k, w) ∷ zs)),
    DistinctSids-revalue s k v w ys zs d.1,
  )

  DistinctKeys-revalue :
      (k : K) (v w : T) (ys zs : List (K × T))
      → DistinctKeys (ys ++ (k, v) ∷ zs)
      → DistinctKeys (ys ++ (k, w) ∷ zs)
  DistinctKeys-revalue k v w [] zs d = d
  DistinctKeys-revalue k v w ((j, u) ∷ ys) zs d = (
    ground (arith, has_key-append j ys ((k, v) ∷ zs), has_key-append j ys ((k, w) ∷ zs)),
    DistinctKeys-revalue k v w ys zs d.1,
  )

  sid_of-revalue :
      (s : ℕ) (k : K) (v w : T) (ys zs : Cells K T) (i : K)
      → sid_of i (ys ++ (s, k, v) ∷ zs) ≡ sid_of i (ys ++ (s, k, w) ∷ zs)
  sid_of-revalue s k v w [] zs i = refl
  sid_of-revalue s k v w ((t, j, u) ∷ ys) zs i = ground (arith, sid_of-revalue s k v w ys zs i)

module _ {K T : Type 0} ⦃e : Eq K⦄ (api : SlabApi (Node K T)) where
  pub new-Holds : Holds api (new api) []
  unfolding new
  new-Holds = (
    [],
    record { chain = tt; head = refl; tail = refl; sids = tt; keys = tt; index = λ k. refl },
    refl,
  )

  -- `fold` visits the values in order, and ends where the fuel exceeds their number.
  pub fold-foldl {ℓ} :
      {A : Type ℓ} (fuel : ℕ) (l : LinkedList api) (es : List (K × T)) (init : A) (f : A → T → A)
      → Holds api l es
      → length es < fuel
      → fold api fuel l init f ≡ some (foldl f init (values es))
  unfolding fold
  fold-foldl fuel l es init f (xs, is, held) enough =
      ap (λ c. fold_from api fuel l c init f) is.head
      ∙ fold_from-foldl api fuel l none xs init f is.chain (rw (← held) at enough)
      ∙ ap (λ c. some (foldl f init (values c))) held

  pub to_vec-values :
      (fuel : ℕ) (l : LinkedList api) (es : List (K × T))
      → Holds api l es
      → length es < fuel
      → to_vec api fuel l ≡ some (values es)
  unfolding to_vec fold
  to_vec-values fuel l es h enough =
      fold-foldl fuel l es [] (λ res v. res ++ v ∷ []) h enough
      ∙ ap some (foldl-snoc api [] (values es))

  pub is_empty-Holds :
      (l : LinkedList api) (es : List (K × T)) → Holds api l es → is_empty api l ≡ is_nil es
  unfolding is_empty
  is_empty-Holds l es ([], is, held) = rw (is.head, ← held)
  is_empty-Holds l es (c ∷ xs, is, held) = rw (is.head, ← held)

  -- The list after a write through a reference to the value of a cell.
  revalue : LinkedList api → ℕ → K → T → Option ℕ → Option ℕ → LinkedList api
  revalue l s k w next prev = record l { slab = api.set l.slab s (node k w next prev) }

  revalue-IsList :
      (l : LinkedList api) (ys zs : Cells K T) (s : ℕ) (k : K) (v w : T)
      → IsList api l (ys ++ (s, k, v) ∷ zs)
      → (api.get l.slab s ≡ some (node k v (first zs none) (last none ys)))
        × IsList api (revalue l s k w (first zs none) (last none ys)) (ys ++ (s, k, w) ∷ zs)
  unfolding revalue
  revalue-IsList l ys zs s k v w is =
      let g = api.get l.slab in
      let (front, back) = Chain-split g none ys ((s, k, v) ∷ zs) none is.chain in
      let (dy, dz, apart) = DistinctSids-append ys ((s, k, v) ∷ zs) is.sids in
      let reads = λ (i : ℕ).
        api.get-set l.slab s (node k v (first zs none) (last none ys))
          (node k w (first zs none) (last none ys)) i back.0 in
      let h = api.get (api.set l.slab s (node k w (first zs none) (last none ys))) in
      (
        back.0,
        record {
          chain =
              Chain-join h none ys ((s, k, w) ∷ zs) none
                (Chain-frame g h none ys (some s) front
                  (λ i has. ground (arith, reads i, apart i has, ==_iff i s)))
                (
                  ground (arith, reads s, ==_iff s s),
                  Chain-frame g h (some s) zs none back.1
                      (λ i has. ground (arith, reads i, dz.0, ==_iff i s)),
                );
          head =
              is.head
              ∙ first-append ys ((s, k, v) ∷ zs) none
              ∙ sym (first-append ys ((s, k, w) ∷ zs) none);
          tail =
              is.tail
              ∙ last-append none ys ((s, k, v) ∷ zs)
              ∙ sym (last-append none ys ((s, k, w) ∷ zs));
          sids = DistinctSids-revalue s k v w ys zs is.sids;
          keys =
              rw entries-append (
                DistinctKeys-revalue k v w (entries ys) (entries zs)
                  (rw entries-append at is.keys));
          index = λ i. is.index i ∙ sid_of-revalue s k v w ys zs i;
        },
      )

  -- The reference to the first value of a well-formed list shows that value, and a write through it
  -- changes it and nothing else.
  pub head_value-Holds :
      (l : LinkedList api) (k : K) (v : T) (es : List (K × T))
      → Holds api l ((k, v) ∷ es)
      → (put : T → LinkedList api) × (head_value_ref_mut_unsafe api l ≡ some (some (v, put)))
        × ((w : T) → Holds api (put w) ((k, w) ∷ es))
  unfolding head_value_ref_mut_unsafe revalue
  head_value-Holds l k v es ([], is, held) = cc
  head_value-Holds l k v es ((s, j, u) ∷ zs, is, held) =
      let read = (revalue-IsList l [] zs s j u u is).0 in
      let same : u ≡ v = ground arith in
      (
        λ w. revalue l s j w (first zs none) none,
        ap (value_ref_mut api l) is.head
            ∙ rw read (ap (λ x. some (some (x, λ w. revalue l s j w (first zs none) none))) same),
        λ w. ((s, j, w) ∷ zs, (revalue-IsList l [] zs s j u w is).1, ground arith),
      )

  pub head_value_empty :
      (l : LinkedList api) → Holds api l [] → head_value_ref_mut_unsafe api l ≡ some none
  unfolding head_value_ref_mut_unsafe
  head_value_empty l ([], is, held) = ap (value_ref_mut api l) is.head
  head_value_empty l (c ∷ xs, is, held) = cc

  -- The reference to the value of a key that is there shows that value, and a write through it
  -- changes the value of the key and nothing else.
  pub node_value-Holds :
      (l : LinkedList api) (k : K) (es : List (K × T))
      → Holds api l es
      → has_key k es ≡ true
      → (v : T) × (put : T → LinkedList api) × (node_value_mut api l k ≡ some (some (v, put)))
        × (lookup k es ≡ some v)
        × ((w : T) → Holds api (put w) (set_value k w es))
  unfolding node_value_mut revalue
  node_value-Holds l k es (xs, is, held) there =
      let (s, found) = is_some_inv (sid_of k xs) (is_some-sid_of k xs ∙ rw held there) in
      let (ys, v, zs, split, before) = sid_of-split k s xs found in
      let is' : IsList api l (ys ++ (s, k, v) ∷ zs) = rw split at is in
      let shape = sym held ∙ ap entries split ∙ entries-append ys ((s, k, v) ∷ zs) in
      let read = (revalue-IsList l ys zs s k v v is').0 in
      (
        v,
        λ w. revalue l s k w (first zs none) (last none ys),
        ap (value_ref_mut api l) (is.index k ∙ found) ∙ rw read,
        ap (lookup k) shape ∙ lookup_at k v (entries ys) (entries zs) before,
        λ w. (
          ys ++ (s, k, w) ∷ zs,
          (revalue-IsList l ys zs s k v w is').1,
          entries-append ys ((s, k, w) ∷ zs)
              ∙ sym
                  (ap (set_value k w) shape ∙ set_value_at k v w (entries ys) (entries zs) before),
        ),
      )

  pub node_value_absent :
      (l : LinkedList api) (k : K) (es : List (K × T))
      → Holds api l es
      → has_key k es ≡ false
      → node_value_mut api l k ≡ some none
  unfolding node_value_mut
  node_value_absent l k es (xs, is, held) absent =
      let miss : is_some (l.key_to_sid k) ≡ false = has_key-index api l xs k is ∙ rw held absent in
      ap (value_ref_mut api l) (none_inv (l.key_to_sid k) miss)
