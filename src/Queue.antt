-- ===== src/Queue.antt =====
-- What order_book/mod.rs asks of the list of a price level, the methods of linked_list.rs that it
-- calls: a queue of values under distinct keys, seen through its entries in order. The methods are
-- specified by functions on lists of entries.
pub mod Plain
use mathlib.Core.List.{foldl}
use order_book_server.Base.{
  ◌≡◌, Bool, true, false, ◌||◌, not, Option, none, some, List, [], ◌∷◌, ◌++◌, Eq, has_key, lookup,
  put_before, erase_key, set_value, values, is_nil, if◌then◌else◌,
}

module _ {K T : Type 0} ⦃e : Eq K⦄ where
  abbrev pub entries_push_back : K → T → List (K × T) → List (K × T) × Bool
  entries_push_back k v es = if has_key k es then (es, false) else (es ++ (k, v) ∷ [], true)

  abbrev pub entries_insert_before : K → K → T → List (K × T) → List (K × T) × Bool
  entries_insert_before b k v es =
      if has_key k es || not (has_key b es) then (es, false) else (put_before b k v es, true)

  abbrev pub entries_remove_node : K → List (K × T) → List (K × T) × Bool
  entries_remove_node k es = if has_key k es then (erase_key k es, true) else (es, false)

  -- What a queue method's result shows.
  abbrev pub shows : {Q : Type 0} → (Q → List (K × T)) → Q × Bool → List (K × T) × Bool
  shows view (q, done) = (view q, done)

  -- A reference to a value `v`, through which a write of `w` turns the entries into `after w`.
  abbrev pub RefersTo :
      {Q : Type 0} → (Q → List (K × T)) → Option (T × (T → Q)) → T → (T → List (K × T)) → Type 0
  RefersTo {Q} view r v after =
      (put : T → Q) × (r ≡ some (v, put)) × ((w : T) → view (put w) ≡ after w)

pub record QueueApi (K T : Type 0) ⦃e : Eq K⦄ : Type 1 where
  pub Queue : Type 0
  -- the abstract view
  pub entries : Queue → List (K × T)
  pub new : Queue
  pub is_empty : Queue → Bool
  pub to_vec : Queue → List T
  pub fold : {A : Type 0} → Queue → A → (A → T → A) → A
  pub push_back : Queue → K → T → Queue × Bool
  pub insert_before : Queue → K → K → T → Queue × Bool
  -- `none` is `Err`
  pub remove_front : Queue → Option Queue
  pub remove_node : Queue → K → Queue × Bool
  -- a mutable reference: the value, and the queue after a write
  pub head_value_ref_mut_unsafe : Queue → Option (T × (T → Queue))
  pub node_value_mut : Queue → K → Option (T × (T → Queue))
  pub entries-new : entries new ≡ []
  pub is_empty-entries : (q : Queue) → is_empty q ≡ is_nil (entries q)
  pub to_vec-entries : (q : Queue) → to_vec q ≡ values (entries q)
  pub fold-entries :
      {A : Type 0} (q : Queue) (a : A) (f : A → T → A) → fold q a f ≡ foldl f a (values (entries q))
  pub push_back-entries :
      (q : Queue) (k : K) (v : T)
      → shows entries (push_back q k v) ≡ entries_push_back k v (entries q)
  pub insert_before-entries :
      (q : Queue) (b k : K) (v : T)
      → shows entries (insert_before q b k v) ≡ entries_insert_before b k v (entries q)
  pub remove_node-entries :
      (q : Queue) (k : K) → shows entries (remove_node q k) ≡ entries_remove_node k (entries q)
  pub remove_front_cons :
      (q : Queue) (k : K) (v : T) (es : List (K × T))
      → entries q ≡ (k, v) ∷ es
      → (q' : Queue) × (remove_front q ≡ some q') × (entries q' ≡ es)
  pub remove_front_nil : (q : Queue) → entries q ≡ [] → remove_front q ≡ none
  pub head_cons :
      (q : Queue) (k : K) (v : T) (es : List (K × T))
      → entries q ≡ (k, v) ∷ es
      → RefersTo entries (head_value_ref_mut_unsafe q) v (λ w. (k, w) ∷ es)
  pub head_nil : (q : Queue) → entries q ≡ [] → head_value_ref_mut_unsafe q ≡ none
  pub node_there :
      (q : Queue) (k : K)
      → has_key k (entries q) ≡ true
      → (v : T) × (lookup k (entries q) ≡ some v)
        × RefersTo entries (node_value_mut q k) v (λ w. set_value k w (entries q))
  pub node_absent : (q : Queue) (k : K) → has_key k (entries q) ≡ false → node_value_mut q k ≡ none
