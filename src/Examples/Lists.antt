-- ===== src/Examples/Lists.antt =====
-- A linked list of two values, and the methods on it.
use mathlib.Core.List.{foldl}
use order_book_server.Base.{
  ℕ, ◌+◌, ◌≡◌, refl, arith, none, some, List, [], ◌∷◌, if◌then◌else◌, ◌==◌, nat_eq, values,
  set_value, lookup,
}
use order_book_server.Queue.{entries_push_back, entries_insert_before, entries_remove_node}
use order_book_server.LinkedList.{
  LinkedList, push_back, insert_before, remove_node, remove_front, fold, node_value_mut,
}
use order_book_server.LinkedList.Listing.{Holds}
use order_book_server.LinkedList.Certified.{
  Runs, push_back-Runs, insert_before-Runs, remove_node-Runs,
}
use order_book_server.LinkedList.Remove.{remove_front-Holds}
use order_book_server.LinkedList.Read.{fold-foldl, node_value-Holds}
use order_book_server.Examples.Slots.{slots}

abbrev pub two_list : LinkedList {K = ℕ} {T = ℕ} slots
two_list = record {
  key_to_sid = λ k. if k == 7 then some 0 else if k == 8 then some 1 else none;
  slab =
      some (record { key = 7; value = 70; next = some 1; prev = none })
      ∷ some (record { key = 8; value = 80; next = none; prev = some 0 })
      ∷ [];
  head = some 0;
  tail = some 1;
}

abbrev pub two_entries : List (ℕ × ℕ)
two_entries = (7, 70) ∷ (8, 80) ∷ []

pub two_list-Holds : Holds slots two_list two_entries
two_list-Holds = (
  (0, 7, 70) ∷ (1, 8, 80) ∷ [],
  record {
    chain = (refl, (refl, tt));
    head = refl;
    tail = refl;
    sids = (refl, (refl, tt));
    keys = (refl, (refl, tt));
    index = λ k. ground arith;
  },
  refl,
)

push_back-Runs_example :
    Runs slots (push_back slots two_list 9 90) (entries_push_back 9 90 two_entries)
push_back-Runs_example = push_back-Runs slots two_list two_entries 9 90 two_list-Holds

insert_before-Runs_example :
    Runs slots (insert_before slots two_list 8 9 90) (entries_insert_before 8 9 90 two_entries)
insert_before-Runs_example = insert_before-Runs slots two_list two_entries 8 9 90 two_list-Holds

remove_node-Runs_example :
    Runs slots (remove_node slots two_list 7) (entries_remove_node 7 two_entries)
remove_node-Runs_example = remove_node-Runs slots two_list two_entries 7 two_list-Holds

remove_front-Holds_example :
    (l' : LinkedList {K = ℕ} {T = ℕ} slots) × (remove_front slots two_list ≡ some (some l'))
    × Holds slots l' ((8, 80) ∷ [])
remove_front-Holds_example = remove_front-Holds slots two_list 7 70 ((8, 80) ∷ []) two_list-Holds

fold-foldl_example : fold slots 3 two_list 0 (◌+◌) ≡ some (foldl (◌+◌) 0 (values two_entries))
fold-foldl_example = fold-foldl slots 3 two_list two_entries 0 (◌+◌) two_list-Holds (omega arith)

node_value-Holds_example :
    (v : ℕ) × (put : ℕ → LinkedList slots) × (node_value_mut slots two_list 8
      ≡ some (some (v, put)))
    × (lookup 8 two_entries ≡ some v)
    × ((w : ℕ) → Holds slots (put w) (set_value 8 w two_entries))
node_value-Holds_example = node_value-Holds slots two_list 8 two_entries two_list-Holds refl
