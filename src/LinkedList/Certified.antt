-- ===== src/LinkedList/Certified.antt =====
-- The linked list refines its list of entries, method by method: no index panics, and results and
-- entries are those of the specification. So a linked list with its invariant is a queue.
use native.Mathlib.Nat.{le_refl}
use order_book_server.Base.{
  suc, ◌≡◌, refl, ap, Bool, true, false, ◌||◌, not, Option, none, some, List, [], ◌∷◌, arith, inl,
  inr, Bool-cases, length, Eq, has_key, lookup, set_value,
}
use order_book_server.Queue.{
  QueueApi, entries_push_back, entries_insert_before, entries_remove_node, RefersTo,
}
use order_book_server.LinkedList.Slab.{SlabApi}
use order_book_server.LinkedList.{
  Node, LinkedList, new, is_empty, to_vec, fold, push_back, insert_before, remove_node,
}
use order_book_server.LinkedList.Listing.{Holds}
use order_book_server.LinkedList.Add.{
  push_back-Holds, push_back_dup, insert_before-Holds, insert_before_refused,
}
use order_book_server.LinkedList.Remove.{remove_node-Holds, remove_node_absent, remove_front-Holds}
use order_book_server.LinkedList.Read.{
  new-Holds, is_empty-Holds, to_vec-values, fold-foldl, head_value-Holds, node_value-Holds,
}

module _ {K T : Type 0} ⦃e : Eq K⦄ (api : SlabApi (Node K T)) where
  -- The run ends with no panic, in a well-formed list, with these entries and this result.
  abbrev pub Runs : Option (LinkedList api × Bool) → List (K × T) × Bool → Type 0
  Runs r (es, done) = (l' : LinkedList api) × (r ≡ some (l', done)) × Holds api l' es

  -- On a well-formed list `push_back` does not panic, leaves a well-formed list, and its entries and
  -- result are those of appending a new key, or of refusing one that is there.
  pub push_back-Runs :
      (l : LinkedList api) (es : List (K × T)) (k : K) (v : T)
      → Holds api l es
      → Runs (push_back api l k v) (entries_push_back k v es)
  push_back-Runs l es k v h = elim (Bool-cases (has_key k es)) [
    | inl old ↦ rw old (l, push_back_dup api l es k v h old, h)
    | inr new ↦ rw new (push_back-Holds api l es k v h new)
  ]

  -- On a well-formed list `insert_before` does not panic, leaves a well-formed list, and puts the new
  -- entry directly in front of its anchor, or refuses a key that is there or an anchor that is not.
  pub insert_before-Runs :
      (l : LinkedList api) (es : List (K × T)) (b k : K) (v : T)
      → Holds api l es
      → Runs (insert_before api l b k v) (entries_insert_before b k v es)
  insert_before-Runs l es b k v h = elim (Bool-cases (has_key k es || not (has_key b es))) [
    | inl bad ↦ rw bad (l, insert_before_refused api l es b k v h bad, h)
    | inr good ↦ rw good (insert_before-Holds api l es b k v h (ground arith) (ground arith))
  ]

  -- On a well-formed list `remove_node` does not panic, leaves a well-formed list, and takes out the
  -- entry of the key alone, or says that there is none.
  pub remove_node-Runs :
      (l : LinkedList api) (es : List (K × T)) (k : K)
      → Holds api l es
      → Runs (remove_node api l k) (entries_remove_node k es)
  remove_node-Runs l es k h = elim (Bool-cases (has_key k es)) [
    | inl old ↦ rw old (remove_node-Holds api l es k h old)
    | inr absent ↦ rw absent (l, remove_node_absent api l es k h absent, h)
  ]

  pub record Certified : Type 0 where
    pub list : LinkedList api
    pub shown : List (K × T)
    pub holds : Holds api list shown

  abbrev pub certify :
      {r : Option (LinkedList api × Bool)} (spec : List (K × T) × Bool)
      → Runs r spec
      → Certified × Bool
  certify (es, done) (l', ran, h) = (record { list = l'; shown = es; holds = h }, done)

  abbrev pub get_or {ℓ} : {A : Type ℓ} → A → Option A → A
  get_or a none = a
  get_or a (some b) = b

  abbrev pub front_of : (l : LinkedList api) (es : List (K × T)) → Holds api l es → Option Certified
  front_of l [] h = none
  front_of l ((k, v) ∷ es) h =
      let (l', ran, h') = remove_front-Holds api l k v es h in
      some (record { list = l'; shown = es; holds = h' })

  pub front_of_cons :
      (l : LinkedList api) (fs : List (K × T)) (h : Holds api l fs) (k : K) (v : T)
      (es : List (K × T))
      → fs ≡ (k, v) ∷ es
      → (q' : Certified) × (front_of l fs h ≡ some q') × (q'.shown ≡ es)
  front_of_cons l [] h k v es p = cc
  front_of_cons l ((j, w) ∷ fs) h k v es p =
      let (l', ran, h') = remove_front-Holds api l j w fs h in
      (record { list = l'; shown = fs; holds = h' }, refl, ground arith)

  pub front_of_nil :
      (l : LinkedList api) (fs : List (K × T)) (h : Holds api l fs)
      → fs ≡ []
      → front_of l fs h ≡ none
  front_of_nil l [] h p = refl
  front_of_nil l ((j, w) ∷ fs) h p = cc

  abbrev pub head_of :
      (l : LinkedList api) (es : List (K × T)) → Holds api l es → Option (T × (T → Certified))
  head_of l [] h = none
  head_of l ((k, v) ∷ es) h =
      let (put, ran, h') = head_value-Holds api l k v es h in
      some (v, λ w. record { list = put w; shown = (k, w) ∷ es; holds = h' w })

  pub head_of_cons :
      (l : LinkedList api) (fs : List (K × T)) (h : Holds api l fs) (k : K) (v : T)
      (es : List (K × T))
      → fs ≡ (k, v) ∷ es
      → RefersTo (λ q. q.shown) (head_of l fs h) v (λ w. (k, w) ∷ es)
  head_of_cons l [] h k v es p = cc
  head_of_cons l ((j, u) ∷ fs) h k v es p =
      let (put, ran, h') = head_value-Holds api l j u fs h in
      let same : u ≡ v = ground arith in
      (
        λ w. record { list = put w; shown = (j, w) ∷ fs; holds = h' w },
        ap (λ x. some (x, λ w. record { list = put w; shown = (j, w) ∷ fs; holds = h' w })) same,
        λ w. ground arith,
      )

  pub head_of_nil :
      (l : LinkedList api) (fs : List (K × T)) (h : Holds api l fs)
      → fs ≡ []
      → head_of l fs h ≡ none
  head_of_nil l [] h p = refl
  head_of_nil l ((j, w) ∷ fs) h p = cc

  abbrev pub node_of :
      (l : LinkedList api) (k : K) (es : List (K × T))
      → Holds api l es
      → (b : Bool) → has_key k es ≡ b
      → Option (T × (T → Certified))
  node_of l k es h false absent = none
  node_of l k es h true there =
      let (v, put, ran, found, h') = node_value-Holds api l k es h there in
      some (v, λ w. record { list = put w; shown = set_value k w es; holds = h' w })

  pub node_of_there :
      (l : LinkedList api) (k : K) (es : List (K × T)) (h : Holds api l es) (b : Bool)
      (p : has_key k es ≡ b)
      → b ≡ true
      → (v : T) × (lookup k es ≡ some v)
        × RefersTo (λ q. q.shown) (node_of l k es h b p) v (λ w. set_value k w es)
  node_of_there l k es h false p e = cc
  node_of_there l k es h true p e =
      let (v, put, ran, found, h') = node_value-Holds api l k es h p in
      (
        v,
        found,
        (λ w. record { list = put w; shown = set_value k w es; holds = h' w }, refl, λ w. refl),
      )

  pub node_of_absent :
      (l : LinkedList api) (k : K) (es : List (K × T)) (h : Holds api l es) (b : Bool)
      (p : has_key k es ≡ b)
      → b ≡ false
      → node_of l k es h b p ≡ none
  node_of_absent l k es h false p e = refl
  node_of_absent l k es h true p e = cc

  -- The queue of order_book/mod.rs, by linked_list.rs.
  unfoldable pub linked_queue : QueueApi K T
  linked_queue = record {
    Queue = Certified;
    entries = λ q. q.shown;
    new = record { list = new api; shown = []; holds = new-Holds api };
    is_empty = λ q. is_empty api q.list;
    to_vec = λ q. get_or [] (to_vec api (suc (length q.shown)) q.list);
    fold = λ q a f. get_or a (fold api (suc (length q.shown)) q.list a f);
    push_back = λ q k v.
        certify (entries_push_back k v q.shown) (push_back-Runs q.list q.shown k v q.holds);
    insert_before = λ q b k v.
        certify (entries_insert_before b k v q.shown)
          (insert_before-Runs q.list q.shown b k v q.holds);
    remove_front = λ q. front_of q.list q.shown q.holds;
    remove_node =
        λ q k. certify (entries_remove_node k q.shown) (remove_node-Runs q.list q.shown k q.holds);
    head_value_ref_mut_unsafe = λ q. head_of q.list q.shown q.holds;
    node_value_mut = λ q k. node_of q.list k q.shown q.holds (has_key k q.shown) refl;
    entries-new = refl;
    is_empty-entries = λ q. is_empty-Holds api q.list q.shown q.holds;
    to_vec-entries = λ q.
        ap (get_or [])
          (to_vec-values api (suc (length q.shown)) q.list q.shown q.holds (le_refl _));
    fold-entries = λ q a f.
        ap (get_or a)
          (fold-foldl api (suc (length q.shown)) q.list q.shown a f q.holds (le_refl _));
    push_back-entries = λ q k v. refl;
    insert_before-entries = λ q b k v. refl;
    remove_node-entries = λ q k. refl;
    remove_front_cons = λ q. front_of_cons q.list q.shown q.holds;
    remove_front_nil = λ q. front_of_nil q.list q.shown q.holds;
    head_cons = λ q. head_of_cons q.list q.shown q.holds;
    head_nil = λ q. head_of_nil q.list q.shown q.holds;
    node_there = λ q k p. node_of_there q.list k q.shown q.holds (has_key k q.shown) refl p;
    node_absent = λ q k p. node_of_absent q.list k q.shown q.holds (has_key k q.shown) refl p;
  }
