-- ===== src/Ingestion/Retired.antt =====
-- `hourly_position` and `evict_retired_cursor` of server/src/listeners/order_book/ingestion.rs. A path
-- is the list of its components, and what the file system answers of a path is an argument.
pub mod Oldest
use order_book_server.Base.{
  ℕ, ◌+◌, ◌-◌, ◌*◌, ◌^◌, ◌≡◌, refl, subst, arith, Bool, true, false, not, ◌&&◌, ◌||◌, Option, none,
  some, List, [], ◌∷◌, ltb, ◌==◌, if◌then◌else◌, length, reverse, erase_key, Eq, nat_eq, ◌>>=◌,
}
use order_book_server.OrderBook.Types.{Text, text_beq, text_eq}
use order_book_server.Subscription.{is_ascii_digit}
use order_book_server.Ingestion.Cursor.{Metadata, FileCursor, drained, needs_attention}

abbrev pub FilePath : Type 0
FilePath = List Text

abbrev pub path_beq : FilePath → FilePath → Bool
path_beq [] [] = true
path_beq [] (y ∷ ys) = false
path_beq (x ∷ xs) [] = false
path_beq (x ∷ xs) (y ∷ ys) = text_beq x y && path_beq xs ys

path_beq_iff→ : (p q : FilePath) → path_beq p q ≡ true → p ≡ q
path_beq_iff→ [] [] h = refl
path_beq_iff→ [] (y ∷ ys) h = cc
path_beq_iff→ (x ∷ xs) [] h = cc
path_beq_iff→ (x ∷ xs) (y ∷ ys) h = ground (arith, text_eq.beq_iff x y, path_beq_iff→ xs ys)

path_beq_refl : (p : FilePath) → path_beq p p ≡ true
path_beq_refl [] = refl
path_beq_refl (x ∷ xs) = ground (arith, text_eq.beq_iff x x, path_beq_refl xs)

pub path_eq_law : (p q : FilePath) → (path_beq p q ≡ true → p ≡ q) × (p ≡ q → path_beq p q ≡ true)
path_eq_law p q =
    (path_beq_iff→ p q, λ same. subst (λ t. path_beq p t ≡ true) same (path_beq_refl p))

instance abbrev pub path_eq : Eq FilePath
path_eq = record { beq = path_beq; beq_iff = path_eq_law }

-- `Path::starts_with`
abbrev pub starts_with : FilePath → FilePath → Bool
starts_with path [] = true
starts_with [] (r ∷ root) = false
starts_with (c ∷ path) (r ∷ root) = text_beq c r && starts_with path root

-- the digits of `str::parse::<u32>`
abbrev pub digits : ℕ → Text → Option ℕ
digits n [] = some n
digits n (b ∷ t) =
    let rest = digits (n * 10 + (b - b'0')) t in
    if is_ascii_digit b && ltb (n * 10 + (b - b'0')) (2 ^ 32) then rest else none

abbrev pub unsigned : Text → Option ℕ
unsigned [] = none
unsigned (b ∷ t) = digits 0 (b ∷ t)

-- `str::parse::<u32>`
abbrev pub parse_u32 : Text → Option ℕ
parse_u32 [] = none
parse_u32 (b ∷ t) = if b == b'+' then unsigned t else unsigned (b ∷ t)

abbrev pub hourly_text : Text
hourly_text = b'h' ∷ b'o' ∷ b'u' ∷ b'r' ∷ b'l' ∷ b'y' ∷ []

-- A date and an hour.
abbrev pub Position : Type 0
Position = ℕ × ℕ

-- the components from the last one on
abbrev pub position_from : FilePath → Option Position
position_from [] = none
position_from (name ∷ []) = none
position_from (name ∷ date ∷ []) = none
position_from (name ∷ date ∷ parent ∷ rest) = parse_u32 name >>= λ hour.
    if ltb 23 hour || not (length date == 8) || not (text_beq parent hourly_text)
    then none
    else (parse_u32 date >>= λ day. some (day, hour))

unfoldable pub hourly_position : FilePath → Option Position
hourly_position path = position_from (reverse path)

-- the order of pairs
abbrev pub before : Position → Position → Bool
before (day, hour) (day', hour') = ltb day day' || (day == day' && ltb hour hour')

-- What the file system answers of a path: the file that a cursor on it has open, and the file that the
-- path names now.
pub record Files : Type 0 where
  pub opened : FilePath → Option Metadata
  pub named : FilePath → Option Metadata
  pub now : ℕ

abbrev pub Cursors : Type 0
Cursors = List (FilePath × FileCursor)

module _ (fs : Files) (root : FilePath) where
  -- the first `filter`
  abbrev pub is_caught_up : FilePath → FileCursor → Bool
  is_caught_up path c =
      starts_with path root
      && drained c (fs.opened path)
      && not (needs_attention c (fs.opened path) (fs.named path) fs.now)

  abbrev pub earlier : Position → Option Position → Option Position
  earlier new none = none
  earlier new (some position) = if before position new then some position else none

  -- the position of a cursor that may be retired
  abbrev pub retirable : Position → FilePath → FileCursor → Option Position
  retirable new path c = if is_caught_up path c then earlier new (hourly_position path) else none

  abbrev pub older :
      Position → FilePath → Option (Position × FilePath) → Option (Position × FilePath)
  older position path none = some (position, path)
  older position path (some (position', path')) =
      if before position' position then some (position', path') else some (position, path)

  abbrev pub or_older :
      Option Position → FilePath → Option (Position × FilePath) → Option (Position × FilePath)
  or_older none path rest = rest
  or_older (some position) path rest = older position path rest

  -- `min_by_key` over the cursors that are left
  abbrev pub oldest : Position → Cursors → Option (Position × FilePath)
  oldest new [] = none
  oldest new ((path, c) ∷ cursors) = or_older (retirable new path c) path (oldest new cursors)

  abbrev pub remove_oldest : Cursors → Option (Position × FilePath) → Cursors × Bool
  remove_oldest cursors none = (cursors, false)
  remove_oldest cursors (some (position, path)) = (erase_key path cursors, true)

  abbrev pub evict_before : Cursors → Option Position → Cursors × Bool
  evict_before cursors none = (cursors, false)
  evict_before cursors (some new) = remove_oldest cursors (oldest new cursors)

  unfoldable pub evict_retired_cursor : Cursors → FilePath → Cursors × Bool
  evict_retired_cursor cursors incoming = evict_before cursors (hourly_position incoming)
