-- ===== src/Lib.antt =====
-- TraderTwo: the order book and the matching engine of an exchange, its risk checks, its market data and log,
-- and the workers that run engines on threads.
--
-- Parts, and the code that each is about:
--   Types, Order   include/tt/common/types.hpp and include/tt/core/order.hpp: prices, quantities, orders and
--                  trades.
--   Decimal        `std::to_string` of an unsigned number, for the symbol of an instrument that has none.
--   Level          `Level` of include/tt/orderbook/order_book.hpp and src/orderbook/order_book.cpp: the orders
--                  of one price, oldest first. Level/Sums, Level/Keeps and Level/Fills hold the lemmas on its
--                  total, on appending and removing, and on `reduce_front`.
--   OrderBook      `OrderBook` of the same files: `insert`, `cancel`, `reduce`, `modify`, `fill`, and
--                  `get_or_create_level` and `destroy_level`. OrderBook/Ladder has the two maps of levels and the
--                  storage that owns the levels, OrderBook/Queries the queries. OrderBook/Coherent says what a
--                  valid book is; OrderBook/Moves, Leaves, Joins and Shrinks show what taking an order out, putting
--                  one in and making one smaller do to it, and OrderBook/Validity and OrderBook/Best apply them;
--                  OrderBook/Priority says what an insertion and a cancellation change, OrderBook/Effects what
--                  an insertion, a reduction and a modification do on each branch.
--   Instrument     include/tt/common/instrument.hpp: descriptors, ticks and lots.
--   Double         the arithmetic of the `double` in src/risk/risk.cpp, for numbers that are finite and not negative.
--   Risk           include/tt/risk/risk.hpp and src/risk/risk.cpp: the checks and the gate. Risk/Gate is about what
--                  passes, Risk/Rate about the token bucket.
--   Registry       the state of `MatchingEngine` and its instruments: registration and `validate_order`,
--                  with what that accepts in Registry/Validation.
--   Engine         `MatchingEngine` of include/tt/matching/matching_engine.hpp and
--                  src/matching/matching_engine.cpp: `submit`, `cancel`, `modify`, `reduce`.
--                  Engine/Matching is `match_against`: its rounds, their effect, its runs and their laws.
--                  Engine/Validity, Submits and Accounts are about submissions, Engine/Operations about the
--                  engines that any sequence of operations reaches.
--   MarketData     include/tt/market_data/events.hpp and publisher.hpp, src/market_data/publisher.cpp: the events and
--                  the publisher. MarketData/Recent is about its ring, Quotes about top of book, Subscribers about
--                  listeners.
--   EventLog       include/tt/persistence/event_log.hpp and src/persistence/event_log.cpp: records as bytes;
--                  EventLog/Files has the log, the persisting sink and the replay. EventLog/Bytes, RoundTrip and
--                  Recovery are about writing and reading, EventLog/Replays about the replay.
--   SpscQueue      `SPSCQueue` of include/tt/concurrency/spsc_queue.hpp. SpscQueue/Slots is about cursors and slots,
--                  Fifo about the calls one after the other, Interleaved about the loads and stores of two threads.
--   WorkerPool     include/tt/concurrency/worker_pool.hpp and src/concurrency/worker_pool.cpp: workers, their threads
--                  and the pool. WorkerPool/Outbound has the events for the consumer and their queue, Delivery
--                  what that queue keeps; Rounds, Stops and Pools are about `run`, `stop` and the pool.
--   Text           texts as bytes, and the decimal numbers that `snprintf` writes.
--   Protocol       include/tt/networking/protocol.hpp and src/networking/protocol.cpp: requests and replies.
--                  Protocol/Tokens has the words and numbers of a line, Lines and Numbers what they are read from; RoundTrip
--                  and Refusals are about `parse_request`.
--   Gateway        src/networking/gateway.cpp: `process_buffer` and `client_loop`, with Gateway/Chunks about both.
--   Sink           the calls of a `TradeSink` of include/tt/matching/matching_engine.hpp.
--   Metrics        include/tt/observability/metrics.hpp and src/observability/metrics.cpp: counters and how they are
--                  printed. Metrics/Totals is about the sink, Rendering about the buffers.
--   StructuredLog  include/tt/observability/structured_log.hpp and src/observability/structured_log.cpp: log lines,
--                  with StructuredLog/Escapes about texts in JSON.
--   WebSocket      src/networking/ws_server.cpp: WebSocket/Handshake has the request of a client, Frames and Json are
--                  what the loop over its frames reads. Masks, FrameTrips and Loop are about frames that were written.
--   WsGateway      src/networking/ws_gateway.cpp: the handlers of commands, with WsGateway/Replies about them.
--   Prelude        numbers, tests, lists and association lists that the parts share.
--   Tests          concrete books, engines, risk checks, queues, lines, counters and sockets.
--
-- How the state corresponds: a `std::map` of levels is a list of levels in the map's order, an
-- `unordered_map` an association list; `id_index_` owns the orders and a pointer to an order is its id,
-- read through the index. `level_storage_` is the list of the prices that it owns with the side whose level
-- it owns there, since it is keyed by the price alone. The calls of a sink are the trades and the result that
-- a submission returns, in this order. `submit` is split at its steps: `submit_order` checks, `gated` asks the
-- risk gate, `execute` assigns the sequence number and runs the match loop, `settle` decides what is
-- reported, `rest_order` puts the rest into the book and `finish` joins the last two.
--
-- Bounds and fuel: prices, quantities and totals are integers without a bound, as an overflow of `int64_t` is
-- undefined in the source; sequence numbers wrap at 2^64. The match loop runs on fuel of two more rounds than the
-- book has orders: every round but the last takes an order off the book or leaves the taker with nothing.
-- The loops over a buffer have a round for each of its bytes, and each round but the last takes a byte at least.
-- The tokens of a bucket are a `double`: a natural number of units of 2^-1074, rounded to 53 bits, to the nearest and
-- then to the even one, at each step of the source. It takes at most 2098 halvings to find the 53 bits.
--
-- What stands outside: a read of a destroyed order, which the language leaves undefined, is the
-- parameter `freed` of the machine; the clock is an argument of the risk checks, and a function of the trade's
-- id for the time of a trade. A failed assertion leaves the book as it was. Mutexes are left out. The
-- publisher's calls of its listeners are returned, and the engine it reads is an argument. The bytes that a
-- text of the engine has are a parameter of the persisting sink; opening a file succeeds, a stream opened for
-- appending cannot be read, and a read past the end of a file keeps the bytes that were there and leaves the
-- others zero. A thread of a worker is a stage and one step for each test and each pop of its loop; a load of the
-- other thread's cursor sees the last store. A client of the gateway is the list of chunks that `recv` gives it, and the
-- calls of the publisher by its sink are listed; so it is for a web socket client, and the hash of its handshake
-- is an argument. Starting, stopping and accepting, and the table of the peers of the web socket server,
-- sockets, the dashboard, benchmarks and examples are outside of the model.
pub mod Prelude
pub mod Decimal
pub mod Types
pub mod Order
pub mod Level
pub mod OrderBook
pub mod Instrument
pub mod Double
pub mod Risk
pub mod Registry
pub mod Engine
pub mod MarketData
pub mod EventLog
pub mod SpscQueue
pub mod WorkerPool
pub mod Text
pub mod Protocol
pub mod Gateway
pub mod Sink
pub mod Metrics
pub mod StructuredLog
pub mod WebSocket
pub mod WsGateway
pub mod Tests
