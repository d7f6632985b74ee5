-- ===== src/Ingestion/DirtyFiles.antt =====
-- `DirtyFiles` of server/src/listeners/order_book/ingestion.rs: a bounded queue of paths, each once.
use order_book_server.Base.{
  ℕ, ◌≤◌, ◌≡◌, refl, Bool, true, false, Option, none, some, List, [], ◌∷◌, ◌++◌, ◌||◌, ◌⊎◌, leb,
  if◌then◌else◌, arith, Eq, Map, map_insert, map_remove, is_some, length, length-append, Bool-cases,
  inl, inr,
}

pub record DirtyFiles (P : Type 0) : Type 0 where
  pub paths : List P
  pub created : Map P Bool
  pub limit : ℕ
  pub overflow : Bool

unfoldable pub new : {P : Type 0} → ℕ → DirtyFiles P
new limit = record { paths = []; created = λ _. none; limit = limit; overflow = false }

unfoldable pub mark_overflow : {P : Type 0} → DirtyFiles P → DirtyFiles P
mark_overflow d = record d { overflow = true }

unfoldable pub take_overflow : {P : Type 0} → DirtyFiles P → DirtyFiles P × Bool
take_overflow d = (record d { overflow = false }, d.overflow)

abbrev pub or_false : Option Bool → Bool
or_false none = false
or_false (some b) = b

module _ {P : Type 0} ⦃e : Eq P⦄ where
  abbrev pub push_at : DirtyFiles P → P → Bool → Option Bool → DirtyFiles P
  push_at d path created (some existing) = record d {
    created = map_insert d.created path (existing || created);
  }
  push_at d path created none =
      if leb d.limit (length d.paths)
      then record d { overflow = true }
      else record d { created = map_insert d.created path created; paths = d.paths ++ path ∷ [] }

  unfoldable pub push : DirtyFiles P → P → Bool → DirtyFiles P
  push d path created = push_at d path created (d.created path)

  abbrev pub pop_from : DirtyFiles P → List P → Option ((P × Bool) × DirtyFiles P)
  pop_from d [] = none
  pop_from d (path ∷ paths) = some (
    (path, or_false (d.created path)),
    record d { paths = paths; created = map_remove d.created path },
  )

  unfoldable pub pop : DirtyFiles P → Option ((P × Bool) × DirtyFiles P)
  pop d = pop_from d d.paths

  abbrev pub contains : P → List P → Bool
  contains x [] = false
  contains x (p ∷ paths) = e.beq p x || contains x paths

  abbrev pub Distinct : List P → Type 0
  Distinct [] = Unit
  Distinct (p ∷ paths) = (contains p paths ≡ false) × Distinct paths

  -- The map has exactly the queued paths, each once, and no more than the limit.
  pub record IsQueue (d : DirtyFiles P) : Type 0 where
    pub bounded : length d.paths ≤ d.limit
    pub distinct : Distinct d.paths
    pub same : (x : P) → is_some (d.created x) ≡ contains x d.paths

  contains-append :
      (x : P) (xs ys : List P) → contains x (xs ++ ys) ≡ (contains x xs || contains x ys)
  contains-append x [] ys = refl
  contains-append x (p ∷ xs) ys = ground (arith, contains-append x xs ys)

  Distinct-snoc :
      (xs : List P) (p : P) → Distinct xs → contains p xs ≡ false → Distinct (xs ++ p ∷ [])
  Distinct-snoc [] p d new = (refl, tt)
  Distinct-snoc (x ∷ xs) p d new = (
    ground (arith, contains-append x xs (p ∷ []), e.beq_iff p x, e.beq_iff x p),
    Distinct-snoc xs p d.1 (ground arith),
  )

  pub new-IsQueue : (limit : ℕ) → IsQueue (new limit)
  unfolding new
  new-IsQueue limit = record { bounded = omega arith; distinct = tt; same = λ x. refl }

  push_at-IsQueue :
      (d : DirtyFiles P) (path : P) (created : Bool) (old : Option Bool)
      → d.created path ≡ old
      → IsQueue d
      → IsQueue (push_at d path created old)
        × ((is_some ((push_at d path created old).created path)
              || (push_at d path created old).overflow)
            ≡ true)
        × (((push_at d path created old).created path ≡ some (or_false old || created))
            ⊎ ((length d.paths ≡ d.limit) × (push_at d path created old ≡ mark_overflow d)))
  unfolding mark_overflow
  push_at-IsQueue d path created (some existing) found v = (
    record {
      bounded = v.bounded;
      distinct = v.distinct;
      same = λ x. ground (arith, v.same x, e.beq_iff x path);
    },
    ground (arith, e.beq_iff path path),
    inl (ground (arith, e.beq_iff path path)),
  )
  push_at-IsQueue d path created none found v = elim (Bool-cases (leb d.limit (length d.paths))) [
    | inl full ↦
        let at_limit : length d.paths ≡ d.limit = ground (arith, v.bounded) in
        rw full (
          record { bounded = v.bounded; distinct = v.distinct; same = v.same },
          ground arith,
          inr (at_limit, refl),
        )
    | inr room ↦
        let new : contains path d.paths ≡ false = ground (arith, v.same path) in
        rw room (
          record {
            bounded = ground (arith, length-append d.paths (path ∷ []));
            distinct = Distinct-snoc d.paths path v.distinct new;
            same = λ x. ground (
              arith,
              v.same x,
              contains-append x d.paths (path ∷ []),
              e.beq_iff x path,
              e.beq_iff path x,
            );
          },
          ground (arith, e.beq_iff path path),
          inl (ground (arith, e.beq_iff path path)),
        )
  ]

  -- `push` keeps the invariant of the dirty files (each queued path once, as many as the map has, within
  -- the limit), and afterwards the path is queued or the overflow is flagged: no notification is lost
  -- in silence. Either the path's flag is now set where it was or where the notification sets it, or
  -- there were as many paths as the limit allows and nothing changes but the overflow.
  pub push-IsQueue :
      (d : DirtyFiles P) (path : P) (created : Bool)
      → IsQueue d
      → IsQueue (push d path created)
        × ((is_some ((push d path created).created path) || (push d path created).overflow) ≡ true)
        × (((push d path created).created path ≡ some (or_false (d.created path) || created))
            ⊎ ((length d.paths ≡ d.limit) × (push d path created ≡ mark_overflow d)))
  unfolding push
  push-IsQueue d path created v = push_at-IsQueue d path created (d.created path) refl v

  pop_from-IsQueue :
      (paths : List P) (map : Map P Bool) (limit : ℕ) (overflow : Bool) (d' : DirtyFiles P)
      (path : P) (created : Bool)
      → IsQueue (record { paths = paths; created = map; limit = limit; overflow = overflow })
      → pop_from (record { paths = paths; created = map; limit = limit; overflow = overflow }) paths
        ≡ some ((path, created), d')
      → IsQueue d'
        × (paths ≡ path ∷ d'.paths)
        × (map path ≡ some created)
        × (d'.created path ≡ none)
  pop_from-IsQueue [] map limit overflow d' path created v ran = cc
  pop_from-IsQueue (p ∷ paths) map limit overflow d' path created v ran =
      let shape : d' ≡ record {
        paths = paths;
        created = map_remove map p;
        limit = limit;
        overflow = overflow;
      } =
        ground arith in
      let same : path ≡ p = ground arith in
      let flag : created ≡ or_false (map p) = ground arith in
      let queued : is_some (map p) ≡ true = ground (arith, v.same p, e.beq_iff p p) in
      rw (shape, same, flag)
        (
          record {
            bounded = omega (arith, v.bounded);
            distinct = v.distinct.1;
            same = λ x. ground (arith, v.same x, v.distinct.0, e.beq_iff x p, e.beq_iff p x);
          },
          refl,
          ground arith,
          ground (arith, e.beq_iff p p),
        )

  -- `pop` keeps the invariant; it returns the oldest path with its flag, and forgets both.
  pub pop-IsQueue :
      (d d' : DirtyFiles P) (path : P) (created : Bool)
      → IsQueue d
      → pop d ≡ some ((path, created), d')
      → IsQueue d'
        × (d.paths ≡ path ∷ d'.paths)
        × (d.created path ≡ some created)
        × (d'.created path ≡ none)
  unfolding pop
  pop-IsQueue d d' path created v ran =
      pop_from-IsQueue d.paths d.created d.limit d.overflow d' path created v ran
