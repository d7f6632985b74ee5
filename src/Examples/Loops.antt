-- ===== src/Examples/Loops.antt =====
-- A run of the listener's loop: it attaches to two new files, takes a snapshot of block 41, and reads
-- both halves of block 42.
use order_book_server.Base.{
  subst, ◌≡◌, refl, pos, ℕ, ◌≡◌, refl, arith, Bool, true, false, none, some, List, [], ◌∷◌, nat_eq,
  Eq,
}
use native.Mathlib.Decide.{ℕ_discrete}
use order_book_server.Orders.{InnerL4Order, l4_order}
use order_book_server.Ingestion.Limits.{default}
use order_book_server.Ingestion.Cursor.{Metadata}
use order_book_server.Ingestion.Scoped.{
  EventSource, order_statuses_source, order_diffs_source, Decoder,
}
use order_book_server.Ingestion.Retired.{FilePath}
use order_book_server.Subscription.{all_coins}
use order_book_server.Listener.Recovery.{new_listener}
use order_book_server.Listener.Lines.{Decoders}
use order_book_server.Listener.Loop.{Surroundings, Loop, attach}
use order_book_server.Listener.Loop.Turns.{
  LoopEvent, notice, created_paths, wake, tick, job_starts, node_answers, job_finishes, joined,
  turns,
}
use order_book_server.Listener.Loop.Safety.{Streams}
use order_book_server.Ingestion.Batches.{Batch}
use order_book_server.Orders.{NodeDataOrderStatus}
use order_book_server.Market.Dated.{IsDated}
use order_book_server.Listener.Lines.Dated.{IsDatedDecoders}
use order_book_server.Listener.Loop.Total.{turns-Returns-Streams}
use order_book_server.Examples.Books.{coin_text, three_orders}
use order_book_server.Examples.Inputs.{ascii}
use order_book_server.Examples.Views.{plain, two_floor, one_byte}

InnerL4Order_discrete : Discrete (InnerL4Order ℕ)
InnerL4Order_discrete = hlevel (ℕ_discrete)

-- Equality of orders, by the decision of it.
abbrev is_yes {ℓ} : {P : Type ℓ} → Dec P → Bool
is_yes (yes p) = true
is_yes (no p) = false

pub is_yes_iff {ℓ} : {P : Type ℓ} (d : Dec P) → (is_yes d ≡ true → P) × (P → is_yes d ≡ true)
is_yes_iff (yes p) = (λ h. p, λ q. refl)
is_yes_iff (no p) = (λ h. cc, λ q. absurd (p q))

instance pub order_eq : Eq (InnerL4Order ℕ)
order_eq = record {
  beq = λ a b. is_yes (InnerL4Order_discrete a b);
  beq_iff = λ a b. is_yes_iff (InnerL4Order_discrete a b);
}

abbrev any_block : {E : Type 0} → Batch E
any_block = record {
  local_time = pos 0;
  block_time = pos 2000;
  block_number = 42;
  events = [];
  wire_bytes = 0;
}

-- Any line is block 42, with nothing in it.
abbrev any_line : {E : Type 0} → Decoder E
any_line = record {
  batch = λ line. some any_block;
  raw = λ line. none;
  coin = λ line. none;
  event = λ line. none;
}

abbrev decoders : Decoders ℕ
decoders = record { fills = any_line; statuses = any_line; diffs = any_line }

abbrev statuses_root : FilePath
statuses_root = (b's' ∷ []) ∷ []

abbrev diffs_root : FilePath
diffs_root = (b'd' ∷ []) ∷ []

abbrev roots : List (FilePath × EventSource)
roots = (statuses_root, order_statuses_source) ∷ (diffs_root, order_diffs_source) ∷ []

abbrev file : Metadata
file = record { len = 2; dev = 1; ino = 1 }

abbrev env : Surroundings
env = record {
  files = record { opened = λ path. some file; named = λ path. some file; now = 8 };
  exists = λ path. true;
  is_file = λ path. true;
  still_file = λ path. true;
  open_file = λ path. some 2;
  read = λ path. b'x' ∷ b'\n' ∷ [];
  clock = λ n. 8;
  read_time = 1;
  lock_wait = 1;
  process_time = 1;
}

abbrev paths : List FilePath
paths = ((b's' ∷ []) ∷ (b'1' ∷ []) ∷ []) ∷ ((b'd' ∷ []) ∷ (b'1' ∷ []) ∷ []) ∷ []

abbrev run : List (LoopEvent plain)
run =
    tick
    ∷ job_starts 0 1 5
    ∷ node_answers true 1 6
    ∷ job_finishes (some (41, (coin_text, three_orders) ∷ [])) 1 1
    ∷ joined 7
    ∷ notice (created_paths paths)
    ∷ wake env
    ∷ wake env
    ∷ []

abbrev begun : Loop plain
begun = attach plain (new_listener plain true false all_coins) default 0

any-IsDated : IsDated (any_block {E = NodeDataOrderStatus ℕ})
any-IsDated = ((2000, refl), tt)

instance decoders_dated : IsDatedDecoders decoders
decoders_dated = record {
  whole = λ line b read. let same : any_block ≡ b = cc in subst IsDated same any-IsDated;
  raw_time = λ line b read. cc;
  event_time = λ text s read. cc;
}

turns-Returns-Streams_example :
    (s : Loop plain) × (turns two_floor one_byte decoders ascii roots plain run begun ≡ some s)
    × Streams two_floor one_byte decoders ascii roots plain s.listener
turns-Returns-Streams_example =
    turns-Returns-Streams two_floor (λ px. omega arith) one_byte decoders ascii roots plain run
      false all_coins default 0 (omega arith) (omega arith)
