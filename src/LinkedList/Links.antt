-- ===== src/LinkedList/Links.antt =====
-- What the writes of links do to a chain.
use order_book_server.Base.{
  ℕ, ◌≡◌, refl, sym, false, ◌∙◌, Option, none, some, [], ◌∷◌, ◌++◌, arith, ◌==◌, inl, inr,
  snoc_cases, if◌then◌else◌, ==_iff,
}
use order_book_server.LinkedList.Slab.{SlabApi}
use order_book_server.LinkedList.{Node, LinkedList, change, link_next, link_prev}
use order_book_server.LinkedList.Chain.{
  Cells, node, first, last, has_sid, DistinctSids, Chain, has_sid-append, last-append, first-append,
  DistinctSids-append, Chain-frame, Chain-split, Chain-join,
}

module _ {K T : Type 0} (api : SlabApi (Node K T)) where
  -- `l'` is `l` after a write of links that changes nodes of `xs` only.
  pub record Relinked (l l' : LinkedList api) (xs : Cells K T) : Type 0 where
    pub same_keys : l'.key_to_sid ≡ l.key_to_sid
    pub same : (i : ℕ) → has_sid i xs ≡ false → api.get l'.slab i ≡ api.get l.slab i

  -- `change` at a node that is there
  pub change_lem :
      (s : api.Slab) (i : ℕ) {n : Node K T} (f : Node K T → Node K T)
      → api.get s i ≡ some n
      → (change api s i f ≡ some (api.set s i (f n)))
        × ((j : ℕ) → api.get (api.set s i (f n)) j ≡ (if j == i then some (f n) else api.get s j))
  change_lem s i {n} f e = (rw e, λ j. api.get-set s i n (f n) j e)

  -- What `link_next` leaves of the cells `ys` before it: their chain, now up to `next`.
  abbrev pub LinkedNext : LinkedList api → Cells K T → Option ℕ → Type 0
  LinkedNext l ys next =
      (l' : LinkedList api) × (link_next api l (last none ys) next ≡ some l')
      × Chain (api.get l'.slab) none ys next
      × (l'.head ≡ first ys next)
      × (l'.tail ≡ l.tail)
      × Relinked l l' ys

  link_next-snoc :
      (l : LinkedList api) (ws : Cells K T) (s : ℕ) (k : K) (v : T) (stop next : Option ℕ)
      → Chain (api.get l.slab) none (ws ++ (s, k, v) ∷ []) stop
      → DistinctSids (ws ++ (s, k, v) ∷ [])
      → l.head ≡ first (ws ++ (s, k, v) ∷ []) stop
      → LinkedNext l (ws ++ (s, k, v) ∷ []) next
  link_next-snoc l ws s k v stop next c d hd =
      let g = api.get l.slab in
      let (front, back) = Chain-split g none ws ((s, k, v) ∷ []) stop c in
      let (dw, _, apart) = DistinctSids-append ws ((s, k, v) ∷ []) d in
      let (done, reads) = change_lem l.slab s (λ n. record n { next = next }) back.0 in
      let slab = api.set l.slab s (node k v next (last none ws)) in
      (
        record l { slab = slab },
        rw (last-append none ws ((s, k, v) ∷ []), done),
        Chain-join (api.get slab) none ws ((s, k, v) ∷ []) next
            (Chain-frame g (api.get slab) none ws (some s) front
              (λ i h. ground (arith, reads i, apart i h, ==_iff s s)))
            (ground (arith, reads s), tt),
        hd ∙ first-append ws ((s, k, v) ∷ []) stop ∙ sym (first-append ws ((s, k, v) ∷ []) next),
        refl,
        record {
          same_keys = refl;
          same = λ i o. ground (arith, reads i, has_sid-append i ws ((s, k, v) ∷ []));
        },
      )

  -- The last node of `ys`, or else the head, is led to `next`.
  pub link_next-Chain :
      (l : LinkedList api) (ys : Cells K T) (stop next : Option ℕ)
      → Chain (api.get l.slab) none ys stop
      → DistinctSids ys
      → l.head ≡ first ys stop
      → LinkedNext l ys next
  link_next-Chain l ys stop next c d hd = elim (snoc_cases ys) [
    | inl e ↦ rw e (
      record l { head = next },
      refl,
      tt,
      refl,
      refl,
      record { same_keys = refl; same = λ i o. refl },
    )
    | inr (ws, (s, k, v), e) ↦
        rw e (link_next-snoc l ws s k v stop next (rw e at c) (rw e at d) (rw e at hd))
  ]

  -- What `link_prev` leaves of the cells `zs` behind it: their chain, now behind `prev`.
  abbrev pub LinkedPrev : LinkedList api → Cells K T → Option ℕ → Type 0
  LinkedPrev l zs prev =
      (l' : LinkedList api) × (link_prev api l (first zs none) prev ≡ some l')
      × Chain (api.get l'.slab) prev zs none
      × (l'.tail ≡ last prev zs)
      × (l'.head ≡ l.head)
      × Relinked l l' zs

  -- The first node of `zs`, or else the tail, is led back to `prev`.
  pub link_prev-Chain :
      (l : LinkedList api) (zs : Cells K T) (before prev : Option ℕ)
      → Chain (api.get l.slab) before zs none
      → DistinctSids zs
      → l.tail ≡ last before zs
      → LinkedPrev l zs prev
  link_prev-Chain l [] before prev c d tl = (
    record l { tail = prev },
    refl,
    tt,
    refl,
    refl,
    record { same_keys = refl; same = λ i o. refl },
  )
  link_prev-Chain l ((s, k, v) ∷ zs) before prev c d tl =
      let g = api.get l.slab in
      let (done, reads) = change_lem l.slab s (λ n. record n { prev = prev }) c.0 in
      let slab = api.set l.slab s (node k v (first zs none) prev) in
      (
        record l { slab = slab },
        rw done,
        (
          ground (arith, reads s),
          Chain-frame g (api.get slab) (some s) zs none c.1 (λ i h. ground (arith, reads i, d.0)),
        ),
        tl,
        refl,
        record { same_keys = refl; same = λ i o. ground (arith, reads i) },
      )
