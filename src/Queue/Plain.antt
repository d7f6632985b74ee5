-- ===== src/Queue/Plain.antt =====
-- The bare list of entries is a queue: the interface can be met, and tests can run on it.
use mathlib.Core.List.{foldl}
use order_book_server.Base.{
  ◌≡◌, refl, true, false, Option, none, some, List, [], ◌∷◌, Eq, arith, has_key, lookup, set_value,
  values, is_nil, is_some_inv, none_inv, is_some-lookup, ◌∙◌, ap, ap,
}
use order_book_server.Queue.{
  QueueApi, entries_push_back, entries_insert_before, entries_remove_node, RefersTo,
}

module _ {K T : Type 0} ⦃e : Eq K⦄ where
  abbrev pub plain_front : List (K × T) → Option (List (K × T))
  plain_front [] = none
  plain_front (x ∷ es) = some es

  abbrev pub plain_head : List (K × T) → Option (T × (T → List (K × T)))
  plain_head [] = none
  plain_head ((k, v) ∷ es) = some (v, λ w. (k, w) ∷ es)

  abbrev pub refer : (T → List (K × T)) → Option T → Option (T × (T → List (K × T)))
  refer put none = none
  refer put (some v) = some (v, put)

  abbrev pub plain_node : K → List (K × T) → Option (T × (T → List (K × T)))
  plain_node k es = refer (λ w. set_value k w es) (lookup k es)

  pub plain_front_cons :
      (q : List (K × T)) (k : K) (v : T) (es : List (K × T))
      → q ≡ (k, v) ∷ es
      → (q' : List (K × T)) × (plain_front q ≡ some q') × (q' ≡ es)
  plain_front_cons [] k v es p = cc
  plain_front_cons (x ∷ q) k v es p = (q, refl, ground arith)

  pub plain_front_nil : (q : List (K × T)) → q ≡ [] → plain_front q ≡ none
  plain_front_nil q p = rw p

  pub plain_head_cons :
      (q : List (K × T)) (k : K) (v : T) (es : List (K × T))
      → q ≡ (k, v) ∷ es
      → RefersTo (λ q. q) (plain_head q) v (λ w. (k, w) ∷ es)
  plain_head_cons q k v es p = rw p (λ w. (k, w) ∷ es, refl, λ w. refl)

  pub plain_head_nil : (q : List (K × T)) → q ≡ [] → plain_head q ≡ none
  plain_head_nil q p = rw p

  pub plain_node_there :
      (q : List (K × T)) (k : K)
      → has_key k q ≡ true
      → (v : T) × (lookup k q ≡ some v)
        × RefersTo (λ q. q) (plain_node k q) v (λ w. set_value k w q)
  plain_node_there q k h =
      let (v, found) = is_some_inv (lookup k q) (is_some-lookup k q ∙ h) in
      (v, found, (λ w. set_value k w q, ap (refer (λ w. set_value k w q)) found, λ w. refl))

  pub plain_node_absent : (q : List (K × T)) (k : K) → has_key k q ≡ false → plain_node k q ≡ none
  plain_node_absent q k h =
      ap (refer (λ w. set_value k w q)) (none_inv (lookup k q) (is_some-lookup k q ∙ h))

  -- A queue that is its own view.
  abbrev pub plain_queue : QueueApi K T
  plain_queue = record {
    Queue = List (K × T);
    entries = λ q. q;
    new = [];
    is_empty = is_nil;
    to_vec = values;
    fold = λ q a f. foldl f a (values q);
    push_back = λ q k v. entries_push_back k v q;
    insert_before = λ q b k v. entries_insert_before b k v q;
    remove_front = plain_front;
    remove_node = λ q k. entries_remove_node k q;
    head_value_ref_mut_unsafe = plain_head;
    node_value_mut = λ q k. plain_node k q;
    entries-new = refl;
    is_empty-entries = λ q. refl;
    to_vec-entries = λ q. refl;
    fold-entries = λ q a f. refl;
    push_back-entries = λ q k v. refl;
    insert_before-entries = λ q b k v. refl;
    remove_node-entries = λ q k. refl;
    remove_front_cons = plain_front_cons;
    remove_front_nil = plain_front_nil;
    head_cons = plain_head_cons;
    head_nil = plain_head_nil;
    node_there = plain_node_there;
    node_absent = plain_node_absent;
  }
