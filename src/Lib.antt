-- ===== src/Lib.antt =====
-- A model of the order book server: it follows the node's event files, keeps the limit order books of
-- all coins in step with the blocks, and serves aggregated views and updates of them.
--
-- The parts, from the bottom up:
--   * LinkedList: server/src/order_book/linked_list.rs, a keyed doubly linked list in a slab. The
--     slab package is the interface LinkedList.Slab; a panic at a vacant index is `none`. Loops run on
--     fuel, and one more than the number of entries is enough.
--   * Queue: what a price level asks of that list, an interface with its laws. The linked list fills it
--     (LinkedList.Certified), and so do bare lists of entries (Queue.Plain).
--   * OrderBook: server/src/order_book/mod.rs and types.rs. A side is a list of levels by ascending
--     price, the index of oids a function. The loop of a level runs on as much fuel as there are orders
--     and one more. Each operation is a definition of its own name; Refinement takes the book over any
--     queue to the book over bare lists.
--   * OrderBook.Aggregation: server/src/order_book/levels.rs, the buckets of an L2 view. The `f64`
--     logarithm is a parameter, the arithmetic wraps at 2^64 and a division by zero panics (`none`).
--   * OrderBook.Matching: what the matching of order_book/mod.rs does, at a level, over a side, and to
--     the whole book in any sequence of its operations.
--   * Orders: server/src/types/mod.rs, inner.rs and node_data.rs. An address is a parameter, as is
--     the parsing of a number in the operations on books; Orders.Decimals has the code's own parsing and
--     printing, at any operations of `f64`. The time of a batch or of a status is its milliseconds since
--     1970, with a sign, and the conversion of one before 1970 panics (Base.Times).
--   * Ingestion: server/src/listeners/order_book/ingestion.rs (DirtyFiles, Cursor), the batch queue
--     of utils.rs (Batches) and the limits of mod.rs (Limits), the eviction of cursors (Retired),
--     and Batch::parse_in_scope of types/node_data.rs (Scoped). To read into a buffer of 2^63 bytes
--     or more is a panic (`none`), as allocation has it. What the file system, the clock and
--     serde_json answer are arguments.
--   * Market: server/src/order_book/multi_book.rs and listeners/order_book/state.rs (Market.State): the
--     books by coin, the application of a block's diffs to them, and the cache of their views. The sum of
--     the height and one wraps at 2^64, as in a release build; a debug build panics there.
--     Market.Consistency is validate_snapshot_consistency of listeners/order_book/utils.rs.
--   * Listener: server/src/listeners/order_book/mod.rs: the pairing (Pairs) and application of
--     batches, the records of a file (Lines), the fence and the start from a snapshot (Recovery),
--     the comparison with a snapshot of the node (Reconcile), the task that fetches it, in the
--     parts between which the lock is free (Fetch), and the loop of hl_listen_with_source, an event
--     at a time (Loop). Loops over the two queues run on as much fuel as there are batches and one
--     more. A panic ends a run; one of the task between its parts is an event of the loop. Stream
--     is about the messages that the listener sends, Total about panics.
--   * Feed: server/src/servers/websocket_server.rs, the updates and the trades by coin that are made of
--     the listener's messages, the test on the age of their source, and the cache of encoded books that
--     all connections share (WireCache). Two views that are kept at once have different addresses.
--   * Subscription: server/src/types/subscription.rs, the coins in scope and the requests of clients.
--   * DeliveryTrace: server/src/servers/delivery_trace.rs, the bounded history of what was sent.
--   * Base: lists, maps, results and tests on numbers. Examples: concrete inputs.
--
-- A step of state is a function from the state to the next one and a result. Not modelled: the timers
-- themselves, sockets, the watching of files, logging and serde, which are input and output; the
-- websocket server's sessions, and the loading of snapshot files.
pub mod Base
pub mod LinkedList
pub mod Queue
pub mod OrderBook
pub mod Orders
pub mod Ingestion
pub mod Market
pub mod Listener
pub mod Feed
pub mod Subscription
pub mod DeliveryTrace
pub mod Examples
