-- ===== src/Ingestion/Retired/Oldest.antt =====
-- The cursor that is evicted is one on the oldest of the rotated files that are read to their end.
use order_book_server.Base.{
  ◌≡◌, refl, ap, subst, ◌∙◌, inl, inr, ◌⊎◌, arith, Bool, true, false, Option, none, some, [], ◌∷◌,
  ◌++◌, nat_eq, erase_key, erase_key_at, has_key, has_key-append, DistinctKeys, DistinctKeys-delete,
  All, All-imp, Bool-cases, Option-cases,
}
use order_book_server.Ingestion.Cursor.{FileCursor, drained, needs_attention}
use order_book_server.Ingestion.Retired.{
  FilePath, path_eq, starts_with, hourly_position, Position, before, Files, Cursors, is_caught_up,
  earlier, retirable, older, oldest, remove_oldest, evict_retired_cursor,
}

before_cotrans : (p q r : Position) → before p q ≡ false → before q r ≡ false → before p r ≡ false
before_cotrans (d, h) (d', h') (d'', h'') = ground arith

module _ (fs : Files) (root : FilePath) (new : Position) where
  -- The cursor may be retired: it is of the source, has read its file to the end, and its file is of an
  -- hour before the new one.
  pub record IsRetirable (path : FilePath) (c : FileCursor) (position : Position) : Type 0 where
    pub of_root : starts_with path root ≡ true
    pub read : drained c (fs.opened path) ≡ true
    pub quiet : needs_attention c (fs.opened path) (fs.named path) fs.now ≡ false
    pub at : hourly_position path ≡ some position
    pub rotated : before position new ≡ true

  earlier-some :
      (found : Option Position) (position : Position)
      → earlier fs root new found ≡ some position
      → (found ≡ some position) × (before position new ≡ true)
  earlier-some none position h = cc
  earlier-some (some p) position h = elim (Bool-cases (before p new)) [
    | inl yes_before ↦
        let same : p ≡ position = ground arith in
        (ap some same, subst (λ (t : Position). before t new ≡ true) same yes_before)
    | inr not_before ↦ absurd (ground arith)
  ]

  retirable-IsRetirable :
      (path : FilePath) (c : FileCursor) (position : Position)
      → retirable fs root new path c ≡ some position
      → IsRetirable path c position
  retirable-IsRetirable path c position h = elim (Bool-cases (is_caught_up fs root path c)) [
    | inl caught ↦
        let (at, rotated) = earlier-some (hourly_position path) position (ground arith) in
        record {
          of_root = ground arith;
          read = ground arith;
          quiet = ground arith;
          at = at;
          rotated = rotated;
        }
    | inr busy ↦ absurd (ground arith)
  ]

  IsRetirable-retirable :
      (path : FilePath) (c : FileCursor) (position : Position)
      → IsRetirable path c position
      → retirable fs root new path c ≡ some position
  IsRetirable-retirable path c position r = rw (r.of_root, r.read, r.quiet, r.at, r.rotated) refl

  abbrev pub NeverRetirable : FilePath × FileCursor → Type 0
  NeverRetirable (path, c) = (position : Position) → ¬ (IsRetirable path c position)

  -- The cursor, where it may be retired, is on a file of no hour before the given one.
  abbrev pub NotOlder : Position → FilePath × FileCursor → Type 0
  NotOlder least (path, c) =
      (position : Position) → IsRetirable path c position → before position least ≡ false

  -- One of the cursors, which may be retired, and no other that may be is on a file of an hour before.
  pub record IsOldest (cursors : Cursors) (position : Position) (path : FilePath) : Type 0 where
    pub ahead : Cursors
    pub cursor : FileCursor
    pub behind : Cursors
    pub stands : cursors ≡ ahead ++ (path, cursor) ∷ behind
    pub may_go : IsRetirable path cursor position
    pub least : All (NotOlder position) cursors

  abbrev pub FindsOldest : Cursors → Option (Position × FilePath) → Type 0
  FindsOldest cursors none = All NeverRetirable cursors
  FindsOldest cursors (some (position, path)) = IsOldest cursors position path

  none-NeverRetirable :
      (path : FilePath) (c : FileCursor)
      → retirable fs root new path c ≡ none
      → NeverRetirable (path, c)
  none-NeverRetirable path c h position r =
      let found = IsRetirable-retirable path c position r in absurd (ground arith)

  -- A cursor whose position is known is at that position and no other.
  at_most :
      (path : FilePath) (c : FileCursor) (least position : Position)
      → retirable fs root new path c ≡ some position
      → before position least ≡ false
      → NotOlder least (path, c)
  at_most path c least position h late other r =
      let found = IsRetirable-retirable path c other r in
      let same : position ≡ other = ground arith in
      subst (λ (t : Position). before t least ≡ false) same late

  before_irrefl : (p : Position) → before p p ≡ false
  before_irrefl (d, h) = ground arith

  before_asym : (p q : Position) → before p q ≡ true → before q p ≡ false
  before_asym (d, h) (d', h') b = ground arith

  older-FindsOldest :
      (path : FilePath) (c : FileCursor) (cursors : Cursors) (position : Position)
      → retirable fs root new path c ≡ some position
      → (rest : Option (Position × FilePath)) → FindsOldest cursors rest
      → FindsOldest ((path, c) ∷ cursors) (older fs root position path rest)
  older-FindsOldest path c cursors position h none none_left = record {
    ahead = [];
    cursor = c;
    behind = cursors;
    stands = refl;
    may_go = retirable-IsRetirable path c position h;
    least = (
      at_most path c position position h (before_irrefl position),
      All-imp (λ e never other r. absurd (never other r)) cursors none_left,
    );
  }
  older-FindsOldest path c cursors position h (some (position', path')) found =
      elim (Bool-cases (before position' position)) [
        | inl earlier_one ↦ rw earlier_one record {
          ahead = (path, c) ∷ found.ahead;
          cursor = found.cursor;
          behind = found.behind;
          stands = ap (◌∷◌ (path, c)) found.stands;
          may_go = found.may_go;
          least = (
            at_most path c position' position h (before_asym position' position earlier_one),
            found.least,
          );
        }
        | inr this_one ↦ rw this_one record {
          ahead = [];
          cursor = c;
          behind = cursors;
          stands = refl;
          may_go = retirable-IsRetirable path c position h;
          least = (
            at_most path c position position h (before_irrefl position),
            All-imp
                (λ e late other r. before_cotrans other position' position (late other r) this_one)
                cursors found.least,
          );
        }
      ]

  skips :
      (path : FilePath) (c : FileCursor) (cursors : Cursors)
      → retirable fs root new path c ≡ none
      → (rest : Option (Position × FilePath)) → FindsOldest cursors rest
      → FindsOldest ((path, c) ∷ cursors) rest
  skips path c cursors h none never = (none-NeverRetirable path c h, never)
  skips path c cursors h (some (position, path')) found = record {
    ahead = (path, c) ∷ found.ahead;
    cursor = found.cursor;
    behind = found.behind;
    stands = ap (◌∷◌ (path, c)) found.stands;
    may_go = found.may_go;
    least = ((λ other r. absurd (none-NeverRetirable path c h other r)), found.least);
  }

  oldest-FindsOldest : (cursors : Cursors) → FindsOldest cursors (oldest fs root new cursors)
  oldest-FindsOldest [] = tt
  oldest-FindsOldest ((path, c) ∷ cursors) =
      let ih = oldest-FindsOldest cursors in
      elim (Option-cases (retirable fs root new path c)) [
        | inl never ↦ rw never (skips path c cursors never (oldest fs root new cursors) ih)
        | inr (position, at) ↦
            rw at (older-FindsOldest path c cursors position at (oldest fs root new cursors) ih)
      ]

  -- A cursor is taken out that is the oldest which may go, and every other one stays; or none may go
  -- and all stay.
  abbrev pub Evicts : Cursors → Cursors × Bool → Type 0
  Evicts cursors (after, evicted) =
      ((evicted ≡ false) × (after ≡ cursors) × All NeverRetirable cursors)
      ⊎ ((evicted ≡ true)
          × (position : Position) × (path : FilePath) × (found : IsOldest cursors position path)
          × (after ≡ found.ahead ++ found.behind))

  remove_oldest-Evicts :
      (cursors : Cursors) (found : Option (Position × FilePath))
      → DistinctKeys cursors
      → FindsOldest cursors found
      → Evicts cursors (remove_oldest fs root cursors found)
  remove_oldest-Evicts cursors none d never = inl (refl, refl, never)
  remove_oldest-Evicts cursors (some (position, path)) d found =
      let split : DistinctKeys (found.ahead ++ (path, found.cursor) ∷ found.behind) =
        subst (λ (t : Cursors). DistinctKeys t) found.stands d in
      let (rest, gone) = DistinctKeys-delete path found.cursor found.ahead found.behind split in
      let fresh : has_key path found.ahead ≡ false =
        ground (arith, has_key-append path found.ahead found.behind) in
      inr (
        refl,
        position,
        path,
        found,
        ap (erase_key path) found.stands
            ∙ erase_key_at path found.cursor found.ahead found.behind fresh,
      )

-- Room for a new hourly file is made by at most one cursor. Where none of the source's cursors has read
-- an earlier hour's file to its end, all cursors stay and no room is reported; else the one taken out
-- is such a cursor, on the earliest hour that any such cursor is on, and all others stay as they are.
pub evict_retired_cursor-Evicts :
    (fs : Files) (root : FilePath) (cursors : Cursors) (incoming : FilePath) (new : Position)
    → hourly_position incoming ≡ some new
    → DistinctKeys cursors
    → Evicts fs root new cursors (evict_retired_cursor fs root cursors incoming)
unfolding evict_retired_cursor
evict_retired_cursor-Evicts fs root cursors incoming new hourly d = rw hourly (
    remove_oldest-Evicts fs root new cursors (oldest fs root new cursors) d
      (oldest-FindsOldest fs root new cursors))
