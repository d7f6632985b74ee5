-- ===== src/LinkedList/Remove.antt =====
-- `remove_node` and `remove_front` on the entries of a linked list.
use order_book_server.Base.{
  ℕ, ◌≡◌, refl, sym, ◌∙◌, ap, true, false, Option, none, some, List, [], ◌∷◌, ◌++◌, arith, Eq,
  is_some, is_some_inv, none_inv, map_remove, has_key, ==_iff, erase_key, erase_key_at,
}
use order_book_server.LinkedList.Slab.{SlabApi}
use order_book_server.LinkedList.{
  Node, LinkedList, link_next, link_prev, advance_head, remove_head, remove_front, remove_node,
}
use order_book_server.LinkedList.Chain.{
  Cells, node, first, last, DistinctSids, Chain, Chain-frame, Chain-join, Chain-split, last-append,
  first-append, DistinctSids-append,
}
use order_book_server.LinkedList.Links.{change_lem, link_next-Chain, link_prev-Chain}
use order_book_server.LinkedList.Listing.{
  entries, entries-append, sid_of, is_some-sid_of, sid_of-split, IsList, Holds, IsList-delete,
}
use order_book_server.LinkedList.Add.{has_key-index}

module _ {K T : Type 0} ⦃e : Eq K⦄ (api : SlabApi (Node K T)) where
  remove_node_steps :
      (l : LinkedList api) (k : K) {s : ℕ} {at : Node K T} {l2 l3 : LinkedList api}
      → l.key_to_sid k ≡ some s
      → api.get l.slab s ≡ some at
      → link_next api
          (record l { slab = api.remove l.slab s; key_to_sid = map_remove l.key_to_sid k })
          at.prev
          at.next
        ≡ some l2
      → link_prev api l2 at.next at.prev ≡ some l3
      → remove_node api l k ≡ some (l3, true)
  unfolding remove_node
  remove_node_steps l k found read ahead behind = rw (found, remove_node, read, ahead, behind)

  -- The links that `remove_node` writes round the place of the cell.
  remove_node-IsList :
      (l : LinkedList api) (ys zs : Cells K T) (s : ℕ) (k : K) (v : T)
      → IsList api l (ys ++ (s, k, v) ∷ zs)
      → l.key_to_sid k ≡ some s
      → (l' : LinkedList api) × (remove_node api l k ≡ some (l', true)) × IsList api l' (ys ++ zs)
  remove_node-IsList l ys zs s k v is found =
      let g = api.get l.slab in
      let (front, back) = Chain-split g none ys ((s, k, v) ∷ zs) none is.chain in
      let (dy, dz, apart) = DistinctSids-append ys ((s, k, v) ∷ zs) is.sids in
      let reads =
        λ (i : ℕ). api.get-remove l.slab s (node k v (first zs none) (last none ys)) i back.0 in
      let slab1 = api.remove l.slab s in
      let l1 : LinkedList api = record l { slab = slab1; key_to_sid = map_remove l.key_to_sid k } in
      let front1 =
        Chain-frame g (api.get slab1) none ys (some s) front
          (λ i h. ground (arith, reads i, apart i h, ==_iff i s)) in
      let (l2, ahead, front2, hd2, tl2, re2) =
        link_next-Chain api l1 ys (some s) (first zs none) front1 dy
          (is.head ∙ first-append ys ((s, k, v) ∷ zs) none) in
      let back2 =
        Chain-frame g (api.get l2.slab) (some s) zs none back.1 (λ i h.
          re2.same i (ground (arith, apart i)) ∙ ground (arith, reads i, dz.0, ==_iff i s)) in
      let (l3, behind, back3, tl3, hd3, re3) =
        link_prev-Chain api l2 zs (some s) (last none ys) back2 dz.1
          (tl2 ∙ is.tail ∙ last-append none ys ((s, k, v) ∷ zs)) in
      let front3 =
        Chain-frame (api.get l2.slab) (api.get l3.slab) none ys (first zs none) front2
          (λ i h. re3.same i (ground (arith, apart i h))) in
      (
        l3,
        remove_node_steps l k found back.0 ahead behind,
        IsList-delete api l l3 ys zs s k v is (re3.same_keys ∙ re2.same_keys)
            (Chain-join (api.get l3.slab) none ys zs none front3 back3)
            (hd3 ∙ hd2 ∙ sym (first-append ys zs none)) (tl3 ∙ sym (last-append none ys zs)),
      )

  -- The entry of a key that is there goes.
  pub remove_node-Holds :
      (l : LinkedList api) (es : List (K × T)) (k : K)
      → Holds api l es
      → has_key k es ≡ true
      → (l' : LinkedList api) × (remove_node api l k ≡ some (l', true))
        × Holds api l' (erase_key k es)
  remove_node-Holds l es k (xs, is, held) there =
      let (s, found) = is_some_inv (sid_of k xs) (is_some-sid_of k xs ∙ rw held there) in
      let (ys, v, zs, split, first_there) = sid_of-split k s xs found in
      let (l', run, is') = remove_node-IsList l ys zs s k v (rw split at is) (is.index k ∙ found) in
      let fits : erase_key k es ≡ entries (ys ++ zs) =
        ap (erase_key k) (sym held ∙ ap entries split ∙ entries-append ys ((s, k, v) ∷ zs))
        ∙ erase_key_at k v (entries ys) (entries zs) first_there
        ∙ sym (entries-append ys zs) in
      (l', run, (ys ++ zs, is', sym fits))

  -- Of a key that is not there `remove_node` says so, and nothing changes.
  pub remove_node_absent :
      (l : LinkedList api) (es : List (K × T)) (k : K)
      → Holds api l es
      → has_key k es ≡ false
      → remove_node api l k ≡ some (l, false)
  unfolding remove_node
  remove_node_absent l es k (xs, is, held) absent =
      let miss : is_some (l.key_to_sid k) ≡ false = has_key-index api l xs k is ∙ rw held absent in
      rw (none_inv (l.key_to_sid k) miss, remove_node)

  remove_front_steps :
      (l : LinkedList api) {h : ℕ} {at : Node K T} {l' : LinkedList api}
      → l.head ≡ some h
      → api.get l.slab h ≡ some at
      → advance_head api
          (record l { slab = api.remove l.slab h; key_to_sid = map_remove l.key_to_sid at.key })
          at.next
        ≡ some l'
      → remove_front api l ≡ some (some l')
  unfolding remove_front
  remove_front_steps l at_head read next = ap (remove_head api l) at_head ∙ rw (read, next)

  -- The new head has no node before it.
  advance_head-Chain :
      (l : LinkedList api) (zs : Cells K T) (before : Option ℕ)
      → Chain (api.get l.slab) before zs none
      → DistinctSids zs
      → l.tail ≡ last before zs
      → (l' : LinkedList api) × (advance_head api l (first zs none) ≡ some l')
        × Chain (api.get l'.slab) none zs none
        × (l'.head ≡ first zs none)
        × (l'.tail ≡ last none zs)
        × (l'.key_to_sid ≡ l.key_to_sid)
  advance_head-Chain l [] before c d tl =
      (record l { head = none; tail = none }, refl, tt, refl, refl, refl)
  advance_head-Chain l ((s, k, v) ∷ zs) before c d tl =
      let (done, reads) = change_lem api l.slab s (λ n. record n { prev = none }) c.0 in
      let slab = api.set l.slab s (node k v (first zs none) none) in
      (
        record l { head = some s; slab = slab },
        rw done,
        (
          ground (arith, reads s),
          Chain-frame (api.get l.slab) (api.get slab) (some s) zs none c.1
              (λ i h. ground (arith, reads i, d.0)),
        ),
        refl,
        tl,
        refl,
      )

  remove_front-IsList :
      (l : LinkedList api) (s : ℕ) (k : K) (v : T) (zs : Cells K T)
      → IsList api l ((s, k, v) ∷ zs)
      → (l' : LinkedList api) × (remove_front api l ≡ some (some l')) × IsList api l' zs
  remove_front-IsList l s k v zs is =
      let reads = λ (i : ℕ). api.get-remove l.slab s (node k v (first zs none) none) i is.chain.0 in
      let slab1 = api.remove l.slab s in
      let l1 : LinkedList api = record l { slab = slab1; key_to_sid = map_remove l.key_to_sid k } in
      let back =
        Chain-frame (api.get l.slab) (api.get slab1) (some s) zs none is.chain.1
          (λ i h. ground (arith, reads i, is.sids.0, ==_iff i s)) in
      let (l', next, c, hd, tl, keyed) = advance_head-Chain l1 zs (some s) back is.sids.1 is.tail in
      (
        l',
        remove_front_steps l is.head is.chain.0 next,
        IsList-delete api l l' [] zs s k v is keyed c hd tl,
      )

  -- On a well-formed list that is not empty `remove_front` succeeds, and a well-formed list of the
  -- other entries is left.
  pub remove_front-Holds :
      (l : LinkedList api) (k : K) (v : T) (es : List (K × T))
      → Holds api l ((k, v) ∷ es)
      → (l' : LinkedList api) × (remove_front api l ≡ some (some l')) × Holds api l' es
  remove_front-Holds l k v es ([], is, held) = cc
  remove_front-Holds l k v es ((s, j, w) ∷ zs, is, held) =
      let (l', run, is') = remove_front-IsList l s j w zs is in (l', run, (zs, is', ground arith))

  -- Of an empty list it is an error.
  pub remove_front_empty : (l : LinkedList api) → Holds api l [] → remove_front api l ≡ some none
  unfolding remove_front
  remove_front_empty l ([], is, held) = rw is.head
  remove_front_empty l (c ∷ xs, is, held) = cc
