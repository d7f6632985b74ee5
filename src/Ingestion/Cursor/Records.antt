-- ===== src/Ingestion/Cursor/Records.antt =====
-- What `FileCursor::read_turn` hands on: whole records, with nothing lost, repeated or reordered.
use order_book_server.Base.{
  ℕ, ◌^◌, leb, ◌+◌, ◌≤◌, ◌≡◌, refl, subst, sym, ap, ◌∙◌, ◌⊎◌, inl, inr, Bool, true, false, Option,
  none, some, List, [], ◌∷◌, ◌++◌, ◌||◌, ltb, ◌==◌, if◌then◌else◌, arith, not, length,
  length-append, is_nil, Bool-cases, take, is_some, All, All-append,
}
use mathlib.Core.List.{append_assoc}
use order_book_server.Base.Result.{Result, ok, err}
use order_book_server.Ingestion.Cursor.{
  Metadata, ReadError, age_limit, FileCursor, newline, scan, drop, since, finish_turn, scan_turn,
  read_turn, verify_file, partial_expired, open_cursor, ReadTurn,
}

abbrev pub NoNewline : List ℕ → Type 0
NoNewline = All (λ b. (b == newline) ≡ false)

-- Nothing, or bytes of which the last is a newline.
abbrev pub WholeRecords : List ℕ → Type 0
WholeRecords text = (text ≡ []) ⊎ ((line : List ℕ) × (text ≡ line ++ newline ∷ []))

pub record IsValid (c : FileCursor) : Type 0 where
  pub one_record : NoNewline c.partial
  pub counted : c.partial_record_bytes ≡ length c.partial
  pub bounded : length c.partial ≤ c.max_record_bytes

-- What the bytes hold: no newline, or a last one with a record begun behind it.
abbrev pub Scanned : ℕ → ℕ → ℕ → ℕ → Option ℕ → List ℕ → ℕ → Option ℕ → Type 0
Scanned max prior index count end bytes count' end' =
    (NoNewline bytes × (end' ≡ end) × (count' ≡ count + length bytes) × (count' ≤ max))
    ⊎ ((lines : List ℕ) × (rest : List ℕ) × (bytes ≡ lines ++ newline ∷ rest)
        × NoNewline rest
        × (end' ≡ some (prior + index + length lines + 1))
        × (count' ≡ length rest)
        × (count' ≤ max))

guarded_inv :
    {A : Type 0} (refused : Bool) (e : ℕ) (r : Result ℕ A) {x : A}
    → (if refused then err e else r) ≡ ok x
    → (refused ≡ false) × (r ≡ ok x)
guarded_inv true e r ran = ground arith
guarded_inv false e r ran = (refl, ran)

scan-Scanned :
    (max prior index count : ℕ) (end : Option ℕ) (bytes : List ℕ) (count' : ℕ) (end' : Option ℕ)
    → count ≤ max
    → scan max prior index count end bytes ≡ ok (count', end')
    → Scanned max prior index count end bytes count' end'
unfolding scan
scan-Scanned max prior index count end [] count' end' fits ran =
    inl (tt, ground arith, ground arith, ground arith)
scan-Scanned max prior index count end (b ∷ bytes) count' end' fits ran =
    let (within, kept) =
      guarded_inv (ltb max (count + 1)) (count + 1)
        (scan max prior (index + 1) (if b == newline then 0 else count + 1)
          (if b == newline then some (prior + index + 1) else end) bytes)
        ran in
    let fits' : count + 1 ≤ max = ground arith in
    elim (Bool-cases (b == newline)) [
      | inl newline_here ↦
          let fed : b ≡ newline = ground arith in
          elim (scan-Scanned max prior (index + 1) 0 (some (prior + index + 1)) bytes count' end'
            (omega arith)
            (ap
                (λ t.
                  scan max prior (index + 1) (if t then 0 else count + 1)
                    (if t then some (prior + index + 1) else end) bytes)
                (sym newline_here)
              ∙ kept)) [
                | inl (plain, at, counted, bounded) ↦ inr (
                  [],
                  bytes,
                  ap (λ x. x ∷ bytes) fed,
                  plain,
                  at ∙ ap some (omega arith),
                  omega (arith, counted),
                  bounded,
                )
                | inr (lines, rest, split, plain, at, counted, bounded) ↦ inr (
                  b ∷ lines,
                  rest,
                  ap (λ x. b ∷ x) split,
                  plain,
                  at ∙ ap some (omega arith),
                  counted,
                  bounded,
                )
              ]
      | inr other ↦
          elim (scan-Scanned max prior (index + 1) (count + 1) end bytes count' end' fits' (
            ap
              (λ t.
                scan max prior (index + 1) (if t then 0 else count + 1)
                  (if t then some (prior + index + 1) else end) bytes)
              (sym other)
            ∙ kept)) [
              | inl (plain, at, counted, bounded) ↦
                  inl ((other, plain), at, omega (arith, counted), bounded)
              | inr (lines, rest, split, plain, at, counted, bounded) ↦ inr (
                b ∷ lines,
                rest,
                ap (λ x. b ∷ x) split,
                plain,
                at ∙ ap some (omega arith),
                counted,
                bounded,
              )
            ]
    ]

take-append : (xs ys : List ℕ) → take (length xs) (xs ++ ys) ≡ xs
take-append [] ys = refl
take-append (x ∷ xs) ys = ap (λ l. x ∷ l) (take-append xs ys)

drop-append : (xs ys : List ℕ) → drop (length xs) (xs ++ ys) ≡ ys
drop-append [] ys = refl
drop-append (x ∷ xs) ys = drop-append xs ys

-- What a turn leaves in the cursor, but for the time of its partial record.
abbrev pub Left : FileCursor → FileCursor → List ℕ → Type 0
Left c c' partial =
    (c'.partial ≡ partial)
    × (c'.partial_record_bytes ≡ c.partial_record_bytes)
    × (c'.max_record_bytes ≡ c.max_record_bytes)
    × (c'.offset ≡ c.offset)

since-Left :
    (c : FileCursor) (completed : Bool) (now : ℕ) → Left c (since c completed now) c.partial
since-Left c completed now = elim (Bool-cases (is_nil c.partial)) [
  | inl nothing ↦ rw nothing (refl, refl, refl, refl)
  | inr begun ↦ elim (Bool-cases (completed || not (is_some c.partial_since))) [
    | inl restart ↦ rw (begun, restart) (refl, refl, refl, refl)
    | inr on ↦ rw (begun, on) (refl, refl, refl, refl)
  ]
]

finish_none :
    (valid_utf8 : List ℕ → Bool) (c c' : FileCursor) (bytes text : List ℕ) (now n : ℕ) (more : Bool)
    → finish_turn valid_utf8 c bytes now none ≡ (c', ok (text, more, n))
    → (text ≡ []) × (n ≡ length bytes) × Left c c' (c.partial ++ bytes)
finish_none valid_utf8 c c' bytes text now n more ran =
    let c1 : FileCursor = record c { partial = c.partial ++ bytes } in
    let same : c' ≡ since c1 false now = ap (λ r. r.0) (sym ran) in
    (ground arith, ground arith, rw same (since-Left c1 false now))

finish_some :
    (valid_utf8 : List ℕ → Bool) (c c' : FileCursor) (bytes text : List ℕ) (now n end : ℕ)
    (more : Bool) (lines rest : List ℕ)
    → c.partial ++ bytes ≡ lines ++ rest
    → end ≡ length lines
    → finish_turn valid_utf8 c bytes now (some end) ≡ (c', ok (text, more, n))
    → (text ≡ lines) × (n ≡ length bytes) × (valid_utf8 text ≡ true) × Left c c' rest
finish_some valid_utf8 c c' bytes text now n end more lines rest split at ran =
    let c1 : FileCursor = record c { partial = drop end (c.partial ++ bytes) } in
    let whole : take end (c.partial ++ bytes) ≡ lines = rw (split, at) (take-append lines rest) in
    let kept : drop end (c.partial ++ bytes) ≡ rest = rw (split, at) (drop-append lines rest) in
    elim (Bool-cases (valid_utf8 (take end (c.partial ++ bytes)))) [
      | inl good ↦
          let same : c' ≡ since c1 true now = ground arith in
          (
            ground arith,
            ground arith,
            ground arith,
            rw same (subst (Left c (since c1 true now)) kept (since-Left c1 true now)),
          )
      | inr bad ↦ ground arith
    ]

-- What a turn that succeeds gives.
abbrev pub Turn : FileCursor → FileCursor → List ℕ → List ℕ → ℕ → Type 0
Turn c c' bytes text n =
    IsValid c'
    × (c.partial ++ bytes ≡ text ++ c'.partial)
    × WholeRecords text
    × (n ≡ length bytes)
    × (c'.offset ≡ c.offset)

Left-IsValid :
    (c c' : FileCursor) (partial : List ℕ)
    → NoNewline partial
    → c.partial_record_bytes ≡ length partial
    → c.partial_record_bytes ≤ c.max_record_bytes
    → Left c c' partial
    → IsValid c'
Left-IsValid c c' partial plain counted fits (p, k, m, o) = record {
  one_record = subst NoNewline (sym p) plain;
  counted = omega (arith, k, counted, ap length p);
  bounded = omega (arith, k, counted, ap length p, m, fits);
}

behind :
    (kept lines rest : List ℕ)
    → kept ++ (lines ++ newline ∷ rest) ≡ (kept ++ (lines ++ newline ∷ [])) ++ rest
behind [] [] rest = refl
behind [] (b ∷ lines) rest = ap (λ l. b ∷ l) (behind [] lines rest)
behind (b ∷ kept) lines rest = ap (λ l. b ∷ l) (behind kept lines rest)

scan_turn-Turn :
    (valid_utf8 : List ℕ → Bool) (c c' : FileCursor) (bytes text : List ℕ) (now n : ℕ) (more : Bool)
    (read : Result ℕ (ℕ × Option ℕ))
    → IsValid c
    → scan c.max_record_bytes (length c.partial) 0 c.partial_record_bytes none bytes ≡ read
    → scan_turn valid_utf8 c bytes now read ≡ (c', ok (text, more, n))
    → Turn c c' bytes text n
scan_turn-Turn valid_utf8 c c' bytes text now n more (err count) v scanned ran = ground arith
scan_turn-Turn valid_utf8 c c' bytes text now n more (ok (count, end)) v scanned ran =
    let c1 : FileCursor = record c { partial_record_bytes = count } in
    elim (scan-Scanned c.max_record_bytes (length c.partial) 0 c.partial_record_bytes none bytes
      count end (omega (arith, v.counted, v.bounded)) scanned) [
        | inl (plain, at, counted, fits) ↦
            let (nothing, all, left) = finish_none valid_utf8 c1 c' bytes text now n more (
              subst (λ e. finish_turn valid_utf8 c1 bytes now e ≡ (c', ok (text, more, n))) at
                ran) in
            (
              Left-IsValid c1 c' (c.partial ++ bytes)
                  (All-append (λ b. (b == newline) ≡ false) c.partial bytes v.one_record plain)
                  (omega (arith, counted, v.counted, length-append c.partial bytes)) fits left,
              rw nothing (sym (left.0)),
              inl nothing,
              all,
              left.3,
            )
        | inr (lines, rest, split, plain, at, counted, fits) ↦
            let ahead : List ℕ = c.partial ++ (lines ++ newline ∷ []) in
            let whole : c.partial ++ bytes ≡ ahead ++ rest =
              ap (λ b. c.partial ++ b) split ∙ behind c.partial lines rest in
            let (same, all, good, left) =
              finish_some valid_utf8 c1 c' bytes text now n
                (length c.partial + 0 + length lines + 1) more ahead rest whole
                (omega (
                  arith,
                  length-append c.partial (lines ++ newline ∷ []),
                  length-append lines (newline ∷ []),
                ))
                (subst (λ e. finish_turn valid_utf8 c1 bytes now e ≡ (c', ok (text, more, n))) at
                  ran) in
            (
              Left-IsValid c1 c' rest plain counted fits left,
              whole ∙ (λ i. sym same i ++ sym (left.0) i),
              inr (c.partial ++ lines, same ∙ sym (append_assoc c.partial lines (newline ∷ []))),
              all,
              left.3,
            )
      ]

turn_inv :
    (valid_utf8 : List ℕ → Bool) (c c' : FileCursor) (bytes text : List ℕ) (now n budget : ℕ)
    (more : Bool) (found : Result ReadError Metadata) {read : ReadTurn}
    → (elim found [
      | err e ↦ some (c, err e)
      | ok metadata ↦
          if partial_expired c now
          then some (c, err age_limit)
          else if leb (2 ^ 63) budget
          then none
          else some read
    ])
      ≡ some (c', ok (text, more, n))
    → read ≡ (c', ok (text, more, n))
turn_inv valid_utf8 c c' bytes text now n budget more (err e) ran = ground arith
turn_inv valid_utf8 c c' bytes text now n budget more (ok metadata) ran = ground arith

-- A turn that succeeds hands on whole records: the bytes it read, behind those kept from before,
-- are the text followed by the bytes it keeps, the text is empty or ends in a newline, what is kept
-- has none and is within the record limit, and the offset moves by the bytes read.
pub read_turn-Turn :
    (valid_utf8 : List ℕ → Bool) (c c' : FileCursor) (file path : Option Metadata)
    (bytes text : List ℕ) (budget now n : ℕ) (more : Bool)
    → IsValid c
    → read_turn valid_utf8 c file path budget bytes now ≡ some (c', ok (text, more, n))
    → IsValid c'
      × (c.partial ++ bytes ≡ text ++ c'.partial)
      × WholeRecords text
      × (n ≡ length bytes)
      × (c'.offset ≡ c.offset + length bytes)
unfolding read_turn
read_turn-Turn valid_utf8 c c' file path bytes text budget now n more v ran =
    scan_turn-Turn valid_utf8 (record c { offset = c.offset + length bytes }) c' bytes text now n
      more (scan c.max_record_bytes (length c.partial) 0 c.partial_record_bytes none bytes)
      (record { one_record = v.one_record; counted = v.counted; bounded = v.bounded }) refl
      (turn_inv valid_utf8 c c' bytes text now n budget more (verify_file c file path) ran)

-- A cursor just opened holds no record yet.
pub open_cursor-IsValid :
    (len max_record_bytes : ℕ) (from_end : Bool)
    → IsValid (open_cursor len from_end max_record_bytes)
unfolding open_cursor
open_cursor-IsValid len max_record_bytes from_end = record {
  one_record = tt;
  counted = refl;
  bounded = omega arith;
}
