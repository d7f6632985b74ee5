-- ===== src/LinkedList/Add.antt =====
-- `push_back` and `insert_before` on the entries of a linked list.
use mathlib.Core.List.{append-nil}
use order_book_server.Base.{
  ℕ, ◌≡◌, refl, sym, ◌∙◌, ap, true, false, ◌||◌, none, some, List, [], ◌∷◌, ◌++◌, arith, inl, inr,
  Bool-cases, not, is_some_inv, none_inv, ◌>>=◌, Eq, is_some, map_insert, has_key, ==_iff,
  snoc_cases, put_before, put_before_at,
}
use order_book_server.LinkedList.Slab.{SlabApi}
use order_book_server.LinkedList.{
  Node, LinkedList, new_node, change, link_next, link_back, push_back, insert_before,
}
use order_book_server.LinkedList.Chain.{
  Cells, node, first, last, has_sid, DistinctSids, Chain, has_sid-append, Chain-frame, Chain-join,
  Chain-split, Chain-vacant, last-append, first-append, DistinctSids-append,
}
use order_book_server.LinkedList.Links.{change_lem, link_next-Chain}
use order_book_server.LinkedList.Listing.{
  entries, entries-append, sid_of, is_some-sid_of, sid_of-split, IsList, Holds, IsList-insert,
}

module _ {K T : Type 0} ⦃e : Eq K⦄ (api : SlabApi (Node K T)) where
  -- Whether the map has a key is whether an entry has it.
  pub has_key-index :
      (l : LinkedList api) (xs : Cells K T) (k : K)
      → IsList api l xs
      → is_some (l.key_to_sid k) ≡ has_key k (entries xs)
  has_key-index l xs k is = ap is_some (is.index k) ∙ is_some-sid_of k xs

  -- A node that the slab has just taken stands at none of the list's cells, which stay as they were.
  pub insert-Chain :
      (l : LinkedList api) (xs : Cells K T) (n : Node K T)
      → IsList api l xs
      → (has_sid (api.insert l.slab n).1 xs ≡ false)
        × Chain (api.get (api.insert l.slab n).0) none xs none
        × (api.get (api.insert l.slab n).0 (api.insert l.slab n).1 ≡ some n)
  insert-Chain l xs n is =
      let s = (api.insert l.slab n).1 in
      let vacant =
        Chain-vacant (api.get l.slab) s none xs none is.chain (api.insert_vacant l.slab n) in
      (
        vacant,
        Chain-frame (api.get l.slab) (api.get (api.insert l.slab n).0) none xs none is.chain
            (λ i h. ground (arith, api.get-insert l.slab n i, ==_iff i s)),
        ground (arith, api.get-insert l.slab n s, ==_iff s s),
      )

  -- `link_back` puts a node that no cell has, with no links yet, behind the last cell.
  link_back-Chain :
      (l : LinkedList api) (xs : Cells K T) (s : ℕ) (k : K) (v : T)
      → Chain (api.get l.slab) none xs none
      → DistinctSids xs
      → l.head ≡ first xs none
      → has_sid s xs ≡ false
      → api.get l.slab s ≡ some (new_node k v)
      → (l' : LinkedList api) × (link_back api l (last none xs) s ≡ some l')
        × Chain (api.get l'.slab) none (xs ++ (s, k, v) ∷ []) none
        × (l'.head ≡ first (xs ++ (s, k, v) ∷ []) none)
        × (l'.tail ≡ some s)
        × (l'.key_to_sid ≡ l.key_to_sid)
  link_back-Chain l xs s k v c d hd out new = elim (snoc_cases xs) [
    | inl e ↦ rw e (record l { head = some s; tail = some s }, refl, (new, tt), refl, refl, refl)
    | inr (ws, (t, j, w), e) ↦
        let (l1, linked, front, hd1, tl1, re) = link_next-Chain api l xs none (some s) c d hd in
        let at_s = re.same s out ∙ new in
        let (done, reads) = change_lem api l1.slab s (λ n. record n { prev = some t }) at_s in
        let slab = api.set l1.slab s (node k v none (some t)) in
        let seal = λ (l2 : LinkedList api). (do
          slab ← change api l2.slab s (λ n. record n { prev = some t })
          some (let r : LinkedList api = record l2 { slab = slab; tail = some s } in r)) in
        let end : last none xs ≡ some t = rw e (last-append none ws ((t, j, w) ∷ [])) in
        (
          record l1 { slab = slab; tail = some s },
          rw end (ap (λ r. r >>= seal) (rw end at linked) ∙ rw done),
          Chain-join (api.get slab) none xs ((s, k, v) ∷ []) none
              (Chain-frame (api.get l1.slab) (api.get slab) none xs (some s) front
                (λ i h. ground (arith, reads i, ==_iff i s)))
              (rw end (ground (arith, reads s)), tt),
          hd1 ∙ sym (first-append xs ((s, k, v) ∷ []) none),
          refl,
          re.same_keys,
        )
  ]

  push_back_steps :
      (l : LinkedList api) (k : K) (v : T) {l' : LinkedList api}
      → is_some (l.key_to_sid k) ≡ false
      → let (slab, s) = api.insert l.slab (new_node k v) in
        link_back api (record l { slab = slab; key_to_sid = map_insert l.key_to_sid k s }) l.tail s
          ≡ some l'
        → push_back api l k v ≡ some (l', true)
  unfolding push_back
  push_back_steps l k v test linked = rw (test, linked)

  insert_before_steps :
      (l : LinkedList api) (b k : K) (v : T) {bs : ℕ} {at : Node K T} {slab2 : api.Slab}
      {l' : LinkedList api}
      → is_some (l.key_to_sid k) ≡ false
      → l.key_to_sid b ≡ some bs
      → api.get l.slab bs ≡ some at
      → let (slab1, s) = api.insert l.slab (node k v (some bs) at.prev) in
        (change api slab1 bs (λ m. record m { prev = some s }) ≡ some slab2)
          × (link_next api
                (record l { slab = slab2; key_to_sid = map_insert l.key_to_sid k s })
                at.prev
                (some s)
              ≡ some l')
        → insert_before api l b k v ≡ some (l', true)
  unfolding insert_before
  insert_before_steps l b k v test found read (done, linked) = rw (test, found, read, done, linked)

  -- A new key goes to the back.
  pub push_back-Holds :
      (l : LinkedList api) (es : List (K × T)) (k : K) (v : T)
      → Holds api l es
      → has_key k es ≡ false
      → (l' : LinkedList api) × (push_back api l k v ≡ some (l', true))
        × Holds api l' (es ++ (k, v) ∷ [])
  unfolding push_back
  push_back-Holds l es k v (xs, is, held) fresh =
      let (out, c, new) = insert-Chain l xs (new_node k v) is in
      let s = (api.insert l.slab (new_node k v)).1 in
      let l1 : LinkedList api = record l {
        slab = (api.insert l.slab (new_node k v)).0;
        key_to_sid = map_insert l.key_to_sid k s;
      } in
      let (l', linked, c', hd, tl, keyed) = link_back-Chain l1 xs s k v c is.sids is.head out new in
      let fresh' : has_key k (entries xs) ≡ false = rw held fresh in
      (
        l',
        push_back_steps l k v (has_key-index l xs k is ∙ fresh')
            (ap (λ t. link_back api l1 t s) is.tail ∙ linked),
        (
          xs ++ (s, k, v) ∷ [],
          IsList-insert api l l' xs [] s k v (rw append-nil is) (rw append-nil out)
              (rw append-nil fresh') keyed c' hd (tl ∙ sym (last-append none xs ((s, k, v) ∷ []))),
          entries-append xs ((s, k, v) ∷ []) ∙ rw held,
        ),
      )

  -- A key that is there is refused, and nothing changes.
  pub push_back_dup :
      (l : LinkedList api) (es : List (K × T)) (k : K) (v : T)
      → Holds api l es
      → has_key k es ≡ true
      → push_back api l k v ≡ some (l, false)
  unfolding push_back
  push_back_dup l es k v (xs, is, held) old = rw (has_key-index l xs k is, held, old)

  -- The links that `insert_before` writes, at the place of `before`.
  insert_before-IsList :
      (l : LinkedList api) (ys zs : Cells K T) (bs : ℕ) (b k : K) (w v : T)
      → IsList api l (ys ++ (bs, b, w) ∷ zs)
      → has_key k (entries (ys ++ (bs, b, w) ∷ zs)) ≡ false
      → l.key_to_sid b ≡ some bs
      → (l' : LinkedList api) × (s : ℕ) × (insert_before api l b k v ≡ some (l', true))
        × IsList api l' (ys ++ (s, k, v) ∷ (bs, b, w) ∷ zs)
  unfolding insert_before
  insert_before-IsList l ys zs bs b k w v is fresh found =
      let xs = ys ++ (bs, b, w) ∷ zs in
      let prev = last none ys in
      let n = node k v (some bs) prev in
      let s = (api.insert l.slab n).1 in
      let slab1 = (api.insert l.slab n).0 in
      let (out, c1, new) = insert-Chain l xs n is in
      let (front, back) = Chain-split (api.get slab1) none ys ((bs, b, w) ∷ zs) none c1 in
      let at_b = (Chain-split (api.get l.slab) none ys ((bs, b, w) ∷ zs) none is.chain).1.0 in
      let (dy, dz, apart) = DistinctSids-append ys ((bs, b, w) ∷ zs) is.sids in
      let (done, reads) = change_lem api slab1 bs (λ m. record m { prev = some s }) back.0 in
      let slab2 = api.set slab1 bs (node b w (first zs none) (some s)) in
      let l2 : LinkedList api = record l {
        slab = slab2;
        key_to_sid = map_insert l.key_to_sid k s;
      } in
      let front2 =
        Chain-frame (api.get slab1) (api.get slab2) none ys (some bs) front
          (λ i h. ground (arith, reads i, apart i h, ==_iff i bs)) in
      let (l3, linked, front3, hd, tl, re) =
        link_next-Chain api l2 ys (some bs) (some s) front2 dy
          (is.head ∙ first-append ys ((bs, b, w) ∷ zs) none) in
      let same : (i : ℕ)
          → has_sid i ((bs, b, w) ∷ zs) ≡ true
          → api.get l3.slab i ≡ api.get slab2 i =
        λ i h. re.same i (ground (arith, apart i)) in
      let links = Chain-join (api.get l3.slab) none ys ((s, k, v) ∷ (bs, b, w) ∷ zs) none front3 (
        re.same s (ground (arith, has_sid-append s ys ((bs, b, w) ∷ zs)))
            ∙ ground (arith, reads s, has_sid-append s ys ((bs, b, w) ∷ zs)),
        (
          same bs (ground (arith, ==_iff bs bs)) ∙ ground (arith, reads bs),
          Chain-frame (api.get slab1) (api.get l3.slab) (some bs) zs none back.1
              (λ i h. same i (ground arith) ∙ ground (arith, reads i, ==_iff i bs)),
        ),
      ) in
      (
        l3,
        s,
        insert_before_steps l b k v (has_key-index l xs k is ∙ fresh) found at_b (done, linked),
        IsList-insert api l l3 ys ((bs, b, w) ∷ zs) s k v is out fresh re.same_keys links
            (hd ∙ sym (first-append ys ((s, k, v) ∷ (bs, b, w) ∷ zs) none))
            (tl
              ∙ is.tail
              ∙ last-append none ys ((bs, b, w) ∷ zs)
              ∙ sym (last-append none ys ((s, k, v) ∷ (bs, b, w) ∷ zs))),
      )

  -- A new key goes directly in front of one that is there.
  pub insert_before-Holds :
      (l : LinkedList api) (es : List (K × T)) (b k : K) (v : T)
      → Holds api l es
      → has_key k es ≡ false
      → has_key b es ≡ true
      → (l' : LinkedList api) × (insert_before api l b k v ≡ some (l', true))
        × Holds api l' (put_before b k v es)
  insert_before-Holds l es b k v (xs, is, held) fresh there =
      let (bs, found) = is_some_inv (sid_of b xs) (is_some-sid_of b xs ∙ rw held there) in
      let (ys, w, zs, split, first_there) = sid_of-split b bs xs found in
      let (l', s, run, is') =
        insert_before-IsList l ys zs bs b k w v (rw split at is)
          (ap (λ c. has_key k (entries c)) (sym split) ∙ rw held fresh) (is.index b ∙ found) in
      let fits : put_before b k v es ≡ entries (ys ++ (s, k, v) ∷ (bs, b, w) ∷ zs) =
        ap (put_before b k v) (sym held ∙ ap entries split ∙ entries-append ys ((bs, b, w) ∷ zs))
        ∙ put_before_at b k w v (entries ys) (entries zs) first_there
        ∙ sym (entries-append ys ((s, k, v) ∷ (bs, b, w) ∷ zs)) in
      (l', run, (ys ++ (s, k, v) ∷ (bs, b, w) ∷ zs, is', sym fits))

  -- A key that is there, or an anchor that is not, is refused, and nothing changes.
  pub insert_before_refused :
      (l : LinkedList api) (es : List (K × T)) (b k : K) (v : T)
      → Holds api l es
      → (has_key k es || not (has_key b es)) ≡ true
      → insert_before api l b k v ≡ some (l, false)
  unfolding insert_before
  insert_before_refused l es b k v (xs, is, held) bad = elim (Bool-cases (has_key k es)) [
    | inl old ↦ rw (has_key-index l xs k is, held, old)
    | inr fresh ↦
        let absent : is_some (l.key_to_sid b) ≡ false =
          has_key-index l xs b is ∙ rw held (ground arith) in
        rw (has_key-index l xs k is, held, fresh, none_inv (l.key_to_sid b) absent)
  ]
