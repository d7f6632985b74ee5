-- ===== src/LinkedList.antt =====
-- server/src/order_book/linked_list.rs: a doubly linked list of keyed values whose nodes live in a
-- slab. `none` is a panic, at an index of the slab that holds no node.
pub mod Slab
pub mod Chain
pub mod Links
pub mod Listing
pub mod Add
pub mod Remove
pub mod Read
pub mod Certified
use order_book_server.Base.{
  ℕ, zero, suc, Bool, true, false, Option, none, some, List, [], ◌∷◌, ◌++◌, Eq, Map, map_insert,
  map_remove, is_some, if◌then◌else◌, ◌>>=◌,
}
use order_book_server.LinkedList.Slab.{SlabApi}

pub record Node (K T : Type 0) : Type 0 where
  pub key : K
  pub value : T
  pub next : Option ℕ
  pub prev : Option ℕ

-- `Node::new`
abbrev pub new_node : {K T : Type 0} → K → T → Node K T
new_node key value = record { key = key; value = value; next = none; prev = none }

module _ {K T : Type 0} (api : SlabApi (Node K T)) where
  pub record LinkedList : Type 0 where
    pub key_to_sid : Map K ℕ
    pub slab : api.Slab
    pub head : Option ℕ
    pub tail : Option ℕ

  -- `&mut self.slab[sid]` and a change of the node
  abbrev pub change : api.Slab → ℕ → (Node K T → Node K T) → Option api.Slab
  change slab sid f = do node ← api.get slab sid; some (api.set slab sid (f node))

  -- `slab[p].next = next` where there is a node before, and else a new head
  abbrev pub link_next : LinkedList → Option ℕ → Option ℕ → Option LinkedList
  link_next l none next = some (record l { head = next })
  link_next l (some p) next = do
    slab ← change l.slab p (λ n. record n { next = next })
    some (record l { slab = slab })

  -- `slab[n].prev = prev` where there is a node behind, and else a new tail
  abbrev pub link_prev : LinkedList → Option ℕ → Option ℕ → Option LinkedList
  link_prev l none prev = some (record l { tail = prev })
  link_prev l (some n) prev = do
    slab ← change l.slab n (λ m. record m { prev = prev })
    some (record l { slab = slab })

  -- the `match self.tail` of `push_back`
  abbrev pub link_back : LinkedList → Option ℕ → ℕ → Option LinkedList
  link_back l none sid = some (record l { head = some sid; tail = some sid })
  link_back l (some t) sid = do
    l' ← link_next l (some t) (some sid)
    slab ← change l'.slab sid (λ n. record n { prev = some t })
    some (record l' { slab = slab; tail = some sid })

  unfoldable pub new : LinkedList
  new = record { key_to_sid = λ _. none; slab = api.new; head = none; tail = none }

  unfoldable pub is_empty : LinkedList → Bool
  is_empty l = elim l.head [ none ↦ true | some _ ↦ false ]

  -- A mutable reference is the value that it shows, and the list after a write through it.
  abbrev pub value_ref_mut : LinkedList → Option ℕ → Option (Option (T × (T → LinkedList)))
  value_ref_mut l none = some none
  value_ref_mut l (some h) = do
    node ← api.get l.slab h
    some (some (node.value, λ v. record l { slab = api.set l.slab h (record node { value = v }) }))

  unfoldable pub head_value_ref_mut_unsafe : LinkedList → Option (Option (T × (T → LinkedList)))
  head_value_ref_mut_unsafe l = value_ref_mut l l.head

  -- the loop of `to_vec` and `fold`, with fuel; the outer `none` is a panic or no fuel left
  unfoldable pub fold_from {ℓ} :
      {A : Type ℓ} → ℕ → LinkedList → Option ℕ → A → (A → T → A) → Option A
  fold_from zero l cur acc f = none
  fold_from (suc fuel) l none acc f = some acc
  fold_from (suc fuel) l (some c) acc f = do
    node ← api.get l.slab c
    fold_from fuel l node.next (f acc node.value) f

  unfoldable pub fold {ℓ} : {A : Type ℓ} → ℕ → LinkedList → A → (A → T → A) → Option A
  unfolding fold_from
  fold fuel l init f = fold_from fuel l l.head init f

  -- `res.push(&node.value)` is the step of the same loop.
  unfoldable pub to_vec : ℕ → LinkedList → Option (List T)
  unfolding fold_from
  to_vec fuel l = fold_from fuel l l.head [] (λ res v. res ++ v ∷ [])

  -- the second match of `remove_front`
  abbrev pub advance_head : LinkedList → Option ℕ → Option LinkedList
  advance_head l none = some (record l { head = none; tail = none })
  advance_head l (some n) = do
    slab ← change l.slab n (λ m. record m { prev = none })
    some (record l { head = some n; slab = slab })

module _ {K T : Type 0} ⦃e : Eq K⦄ (api : SlabApi (Node K T)) where
  unfoldable pub push_back : LinkedList api → K → T → Option (LinkedList api × Bool)
  push_back l key value = if is_some (l.key_to_sid key) then some (l, false) else do
    let (slab, sid) = api.insert l.slab (new_node key value)
    l' ←
        link_back api (record l { slab = slab; key_to_sid = map_insert l.key_to_sid key sid })
          l.tail sid
    some (l', true)

  unfoldable pub insert_before : LinkedList api → K → K → T → Option (LinkedList api × Bool)
  insert_before l before key value =
      if is_some (l.key_to_sid key) then some (l, false) else elim (l.key_to_sid before) [
        | none ↦ some (l, false)
        | some before_sid ↦ do
          at ← api.get l.slab before_sid
          let (slab, sid) =
              api.insert l.slab
                (record { key = key; value = value; next = some before_sid; prev = at.prev })
          slab ← change api slab before_sid (λ n. record n { prev = some sid })
          l' ←
              link_next api (record l { slab = slab; key_to_sid = map_insert l.key_to_sid key sid })
                at.prev (some sid)
          some (l', true)
      ]

  -- `remove_front`, with the `head` that it reads; the inner `none` is `Err("List is empty")`
  abbrev pub remove_head : LinkedList api → Option ℕ → Option (Option (LinkedList api))
  remove_head l none = some none
  remove_head l (some h) = do
    head_order ← api.get l.slab h
    l' ←
        advance_head api
          (record l {
            slab = api.remove l.slab h;
            key_to_sid = map_remove l.key_to_sid head_order.key;
          })
          head_order.next
    some (some l')

  unfoldable pub remove_front : LinkedList api → Option (Option (LinkedList api))
  remove_front l = remove_head l l.head

  unfoldable pub remove_node : LinkedList api → K → Option (LinkedList api × Bool)
  remove_node l key = elim (l.key_to_sid key) [
    | none ↦ some (l, false)
    | some sid ↦ do
      order ← api.get l.slab sid
      l' ←
          link_next api
            (record l { slab = api.remove l.slab sid; key_to_sid = map_remove l.key_to_sid key })
            order.prev order.next
      l' ← link_prev api l' order.next order.prev
      some (l', true)
  ]

  unfoldable pub node_value_mut : LinkedList api → K → Option (Option (T × (T → LinkedList api)))
  node_value_mut l key = value_ref_mut api l (l.key_to_sid key)
