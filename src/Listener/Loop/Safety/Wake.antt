-- ===== src/Listener/Loop/Safety/Wake.antt =====
-- A turn of `wake` keeps the stream contiguous.
use order_book_server.Base.{
  ap, sym, ◌∙◌, ◌>>=◌, if◌then◌else◌, ℕ, ◌+◌, ◌≡◌, refl, subst, inl, inr, arith, Bool, true, false,
  not, Option, none, some, List, is_nil, lookup, has_key, nat_eq, Bool-cases, Option-cases,
}
use order_book_server.Base.Result.{Result, ok, err}
use order_book_server.Queue.{QueueApi}
use order_book_server.OrderBook.Types.{Text}
use order_book_server.Orders.{InnerL4Order, l4_order}
use order_book_server.Ingestion.Cursor.{FileCursor, ReadError, ReadTurn, read_turn}
use order_book_server.Ingestion.DirtyFiles.{DirtyFiles, pop, take_overflow}
use order_book_server.Ingestion.Scoped.{EventSource}
use order_book_server.Ingestion.Retired.{FilePath, path_eq}
use order_book_server.Listener.Lines.Dated.{IsDatedDecoders}
use order_book_server.Listener.{Listener}
use order_book_server.Listener.Lines.{Decoders, process_data}
use order_book_server.Listener.Fetch.{Attempt}
use order_book_server.Listener.Stream.{IsSound, weaken}
use order_book_server.Listener.Stream.Records.{process_data-Kept}
use order_book_server.Listener.Loop.{
  Surroundings, Loop, Held, is_undrained, remove_missing, skip_interval, with_read_stats,
  with_process_stats, fence_failed, Turned, take_data, after_read, read_cursor, open_unknown,
  handle_path, handle_found, find_root, turned, handle_next, overflowed, on_wake, insert_cursor,
}
use order_book_server.Listener.Loop.Safety.Fenced.{
  fenced, fence_if-IsSound, open_path-IsSound, skip_interval-IsSound, fence_failed-IsSound,
  with_process_stats-IsSound, with_read_stats-IsSound,
}

module _ {A : Type 0} (log10_floor : ℕ → ℕ) (parse : Text → Option ℕ) (decoders : Decoders A)
    ⦃laws : IsDatedDecoders decoders⦄ (valid_utf8 : List ℕ → Bool)
    (api : QueueApi ℕ (InnerL4Order A)) (a : Option (Attempt api)) where
  take_data-IsSound :
      (n : ℕ) (env : Surroundings) (source : EventSource) (l l' : Listener api) (text : Text)
      (read_bytes : ℕ)
      → IsSound api n a l
      → take_data log10_floor parse decoders valid_utf8 api env source l text read_bytes ≡ some l'
      → IsSound api (n + 1) a l'
  unfolding take_data
  take_data-IsSound n env source l l' text read_bytes s ran =
      let start = with_read_stats api env read_bytes l in
      let sound = with_read_stats-IsSound api a n env read_bytes l s in
      elim (Bool-cases (is_nil text)) [
        | inl nothing ↦
            let same : with_process_stats api env start ≡ l' = ground arith in
            subst (IsSound api (n + 1) a) same (
              weaken api n (n + 1) a _ (omega arith)
                (with_process_stats-IsSound api a n env start sound))
        | inr something ↦
            elim (Option-cases
              (process_data api log10_floor parse decoders source env.clock start text)) [
                | inl panics ↦ absurd (ground arith)
                | inr (r, gives) ↦
                    let same : with_process_stats api env (fence_failed api r) ≡ l' =
                      ground arith in
                    subst (IsSound api (n + 1) a) same (
                      with_process_stats-IsSound api a (n + 1) env (fence_failed api r) (
                        fence_failed-IsSound api a n r (
                          process_data-Kept log10_floor parse decoders source api n a env.clock
                            start text r sound gives)))
              ]
      ]

  after_read-IsSound :
      (n : ℕ) (env : Surroundings) (source : EventSource) (path : FilePath) (held : Held api)
      (read : FileCursor × Result ReadError (List ℕ × Bool × ℕ)) (t : Turned api)
      → IsSound api n a held.0
      → after_read log10_floor parse decoders valid_utf8 api env source path held read ≡ some t
      → IsSound api (n + 1) a t.0.0
  after_read-IsSound n env source path (l, cursors) (c, err e) t s ran =
      let same : (skip_interval api env path (l, cursors), false) ≡ t = cc in
      subst (λ (t : Turned api). IsSound api (n + 1) a t.0.0) same
        (skip_interval-IsSound api a n env path (l, cursors) s)
  after_read-IsSound n env source path (l, cursors) (c, ok (text, more, read_bytes)) t s ran =
      elim (Option-cases
        (take_data log10_floor parse decoders valid_utf8 api env source l text read_bytes)) [
          | inl panics ↦ absurd (ground arith)
          | inr (l', gives) ↦
              let same : ((l', insert_cursor path c cursors), more) ≡ t = ground arith in
              subst (λ (t : Turned api). IsSound api (n + 1) a t.0.0) same
                (take_data-IsSound n env source l l' text read_bytes s gives)
        ]

  read_cursor-IsSound :
      (n : ℕ) (env : Surroundings) (source : EventSource) (path : FilePath) (held : Held api)
      (c : Option FileCursor) (t : Turned api)
      → IsSound api n a held.0
      → read_cursor log10_floor parse decoders valid_utf8 api env source path held c ≡ some t
      → IsSound api (n + 1) a t.0.0
  read_cursor-IsSound n env source path held none t s ran =
      let same : (held, false) ≡ t = cc in
      subst (λ (t : Turned api). IsSound api (n + 1) a t.0.0) same
        (weaken api n (n + 1) a held.0 (omega arith) s)
  read_cursor-IsSound n env source path held (some c) t s ran =
      elim (Option-cases (
        read_turn valid_utf8 c (env.files.opened path) (env.files.named path)
          held.0.limits.turn_bytes (env.read path) env.files.now)) [
            | inl panics ↦ absurd (ground arith)
            | inr (read, gives) ↦ after_read-IsSound n env source path held read t s (
                sym (
                  ap
                    (λ (t : Option ReadTurn). t >>= λ read.
                      after_read log10_floor parse decoders valid_utf8 api env source path held
                        read)
                    gives)
                ∙ ran)
          ]

  remove_missing-IsSound :
      (n : ℕ) (env : Surroundings) (path : FilePath) (held : Held api)
      → IsSound api n a held.0
      → IsSound api (n + 1) a (remove_missing api env path held).0
  unfolding remove_missing
  remove_missing-IsSound n env path (l, cursors) s =
      fence_if-IsSound api a n (is_undrained api env.files path (lookup path cursors)) l s

  open_unknown-IsSound :
      (n : ℕ) (env : Surroundings) (root path : FilePath) (created : Bool) (held : Held api)
      → IsSound api n a held.0
      → IsSound api
          (n + 3)
          a
          (open_unknown log10_floor parse decoders valid_utf8 api env root path created held).0
  open_unknown-IsSound n env root path created held s = elim (Bool-cases (has_key path held.1)) [
    | inl known ↦ rw known (weaken api n (n + 3) a held.0 (omega arith) s)
    | inr unknown ↦ rw unknown (
        weaken api (n + 1 + 1 + 1) (n + 3) a _ (omega arith)
          (open_path-IsSound api a n env root path created held s))
  ]

  missing-IsSound :
      (n : ℕ) (env : Surroundings) (path : FilePath) (held : Held api)
      → IsSound api n a held.0
      → IsSound api
          (n + 1)
          a
          (if env.is_file path then held else remove_missing api env path held).0
  missing-IsSound n env path held s = elim (Bool-cases (env.is_file path)) [
    | inl file ↦ rw file (weaken api n (n + 1) a held.0 (omega arith) s)
    | inr missing ↦ rw missing (remove_missing-IsSound n env path held s)
  ]

  pub attached-IsSound :
      (n : ℕ) (env : Surroundings) (root path : FilePath) (created : Bool) (held : Held api)
      → IsSound api n a held.0
      → IsSound api
          (n + 1 + 3)
          a
          (open_unknown log10_floor parse decoders valid_utf8 api env root path created
            (if env.is_file path then held else remove_missing api env path held)).0
  attached-IsSound n env root path created held s =
      open_unknown-IsSound (n + 1) env root path created
        (if env.is_file path then held else remove_missing api env path held)
        (missing-IsSound n env path held s)

  handle_path-IsSound :
      (n : ℕ) (env : Surroundings) (root : FilePath) (source : EventSource) (path : FilePath)
      (created : Bool) (held : Held api) (t : Turned api)
      → IsSound api n a held.0
      → handle_path log10_floor parse decoders valid_utf8 api env root source path created held
        ≡ some t
      → IsSound api (n + 5) a t.0.0
  unfolding handle_path
  handle_path-IsSound n env root source path created held t s ran =
      let there = if env.is_file path then held else remove_missing api env path held in
      let attached =
        open_unknown log10_floor parse decoders valid_utf8 api env root path created there in
      elim (Bool-cases (env.still_file path)) [
        | inl file ↦ weaken api (n + 1 + 3 + 1) (n + 5) a t.0.0 (omega arith) (
            read_cursor-IsSound (n + 1 + 3) env source path attached (lookup path attached.1) t
              (attached-IsSound n env root path created held s) (ground arith))
        | inr missing ↦
            let same : (there, false) ≡ t = ground arith in
            subst (λ (t : Turned api). IsSound api (n + 5) a t.0.0) same
              (weaken api (n + 1) (n + 5) a _ (omega arith) (missing-IsSound n env path held s))
      ]

  handle_found-IsSound :
      (n : ℕ) (env : Surroundings) (path : FilePath) (created : Bool) (held : Held api)
      (found : Option (FilePath × EventSource)) (t : Turned api)
      → IsSound api n a held.0
      → handle_found log10_floor parse decoders valid_utf8 api env path created held found ≡ some t
      → IsSound api (n + 5) a t.0.0
  handle_found-IsSound n env path created held none t s ran =
      let same : (held, false) ≡ t = cc in
      subst (λ (t : Turned api). IsSound api (n + 5) a t.0.0) same
        (weaken api n (n + 5) a held.0 (omega arith) s)
  handle_found-IsSound n env path created held (some (root, source)) t s ran =
      handle_path-IsSound n env root source path created held t s ran

  -- The job is as it was, and the listener stays sound.
  abbrev pub Woken : ℕ → Loop api → Loop api → Type 0
  Woken n s s' = IsSound api n a s'.listener × (s'.job ≡ s.job)

  handle_next-Woken :
      (n : ℕ) (env : Surroundings) (roots : List (FilePath × EventSource)) (s : Loop api)
      (held : Held api) (dirty : DirtyFiles FilePath)
      (next : Option ((FilePath × Bool) × DirtyFiles FilePath)) (s' : Loop api)
      → IsSound api n a held.0
      → handle_next log10_floor parse decoders valid_utf8 api env roots s held dirty next ≡ some s'
      → Woken (n + 5) s s'
  handle_next-Woken n env roots s (l, cursors) dirty none s' sound ran =
      let same : (record s {
        listener = l;
        cursors = cursors;
        dirty = dirty;
        woken = not (is_nil dirty.paths);
      })
          ≡ s' =
        cc in
      subst (Woken (n + 5) s) same (weaken api n (n + 5) a l (omega arith) sound, refl)
  handle_next-Woken n env roots s held dirty (some ((path, created), dirty')) s' sound ran =
      elim (Option-cases (
        handle_found log10_floor parse decoders valid_utf8 api env path created held
          (find_root path roots))) [
            | inl panics ↦ absurd (ground arith)
            | inr (t, gives) ↦
                let same : turned log10_floor parse decoders valid_utf8 api s dirty' path t ≡ s' =
                  ground arith in
                subst (Woken (n + 5) s) same (
                  handle_found-IsSound n env path created held (find_root path roots) t sound gives,
                  refl,
                )
          ]

  pub overflowed-IsSound :
      (n : ℕ) (overflow : Bool) (held : Held api)
      → IsSound api n a held.0
      → IsSound api (n + 1) a (overflowed log10_floor parse decoders valid_utf8 api overflow held).0
  overflowed-IsSound n true (l, cursors) s = fenced api a n l s
  overflowed-IsSound n false held s = weaken api n (n + 1) a held.0 (omega arith) s

  pub on_wake-Woken :
      (n : ℕ) (env : Surroundings) (roots : List (FilePath × EventSource)) (s s' : Loop api)
      → IsSound api n a s.listener
      → on_wake log10_floor parse decoders valid_utf8 api env roots s ≡ some s'
      → Woken (n + 1 + 5) s s'
  unfolding on_wake
  on_wake-Woken n env roots s s' sound ran =
      handle_next-Woken (n + 1) env roots s
        (overflowed log10_floor parse decoders valid_utf8 api (take_overflow s.dirty).1
          (s.listener, s.cursors))
        (take_overflow s.dirty).0 (pop (take_overflow s.dirty).0) s'
        (overflowed-IsSound n (take_overflow s.dirty).1 (s.listener, s.cursors) sound) ran
