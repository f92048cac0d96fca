-- ===== src/Lib.antt =====
-- ToyQuant: the venue, the order path, the account and the market data checks of the trading simulator.
--
-- The program replays or receives market data, keeps a book per symbol, runs a strategy on the events
-- and sends its orders to a simulated venue. Its own logic is the venue: `MatchingEngine`
-- (src/exchange) takes orders, public trades and best quotes, matches them under price-time priority
-- and reports each change of an order's state by a callback. `L2OrderBook` (src/orderbook) keeps the
-- depth feed in one `TickLadder` per side; the strategies read it. `MarketDataValidator` (src/market)
-- checks the events of a recording. They share the price ticks and the event types of src/common.
--
-- Between a strategy and the venue stand the pre-trade controls (`RiskPipeline`, src/app), and, as
-- decorators of the venue's interface `IMatchingEngine`, `OrderGateway` and `PaperBroker` (src/lines).
-- What the venue reports goes to `OrderLedger` (src/app), which follows each order's life, and to
-- `Portfolio` (src/accounting), which books the trades. The readers of src/market turn text into events
-- with the parsers of src/market/field_parser.h.
--
--   Base             numbers, lists, maps and bytes that the parts share
--   Common/Types     src/common/types.h and market_event.h: sides, report types, quotes, trades
--   Common/Batch     the depth events of src/common/market_event.h and IncrementalUpdates
--   Common/Float     `double` as an interface, and to_price_tick, to_price of src/common/types.h
--   Common/Fees      the fee functions of src/common/instrument_spec.h, FeeSchedule
--   Exchange/Order   src/exchange/order.h and execution_report.h
--   Exchange/Queue   src/exchange/queue_model.h, QueueAheadModel
--   Exchange/Book    PriceLevel and MEOrderBook of src/exchange/matching_engine.h, the maps of levels
--   Exchange/Sweep   the loops of `match_side` in src/exchange/matching_engine.cpp
--   Exchange/Engine  the engine's state and its operations, in the child modules Match (match_side,
--                    match), Touch (external_touch to match_external_bbo), Send (send_order,
--                    advance_to), Cancel (cancel_order to apply_pending_cancels) and Feed
--                    (process_bbo, process_l2_top, process_market_trade)
--   Exchange/Venue   `IMatchingEngine` as a record of operations, and the engine as a venue
--   Lines/Gateway    src/lines/order_gateway.h and order_gateway.cpp: the table of orders in flight, and in
--                    Gateway/Calls the calls that reach the venue
--   Lines/Broker     src/lines/paper_broker.h and paper_broker.cpp: reports and the statement, and in
--                    Broker/Calls the calls that reach the venue
--   App/Orders       StrategyOrder of src/strategy/strategy.h
--   App/Risk         src/app/risk_pipeline.h and risk_pipeline.cpp, RiskPipeline
--   App/Ledger       src/app/order_ledger.h and order_ledger.cpp, OrderLedger; `on_report` in Ledger/Report,
--                    the queue trace of one order in Ledger/Trace
--   Accounting/Portfolio src/accounting/portfolio.h and portfolio.cpp; valuation, exposure and interval
--                    flows in Portfolio/Value
--   Orderbook/Ladder src/orderbook/tick_ladder.h and tick_ladder.cpp; its readers in Ladder/Walk
--   Orderbook/Book   the calls of src/orderbook/l2_orderbook.cpp that change the book
--   Orderbook/View   its readers, and the views of l2_market_view.h and top_of_book.h
--   Market/Validator src/market/market_data_validator.cpp, MarketDataValidator
--   Market/Fields    src/market/field_parser.h; parse_double and the quantities in Fields/Decimals
--
-- The proofs stand in modules named for what they show: Sweep/Volume, Sweep/Priority, Sweep/Limit,
-- Engine/Fok, Engine/Refuse, Engine/Latency, Engine/Pointers, Engine/Immediate, Engine/SelfTrade,
-- Ladder/Lookup, Ladder/Best, Ladder/Nth, Ladder/Top, Book/History, Common/Updates, Market/Ordering,
-- Risk/Position, Risk/Latch, Risk/Tokens, Ledger/Open, Ledger/States, Ledger/Tally, Gateway/Tally, Gateway/Sweep,
-- Gateway/Bounds, Gateway/Transparent, Broker/Statement, Broker/Agree, Broker/Counts, Broker/Flow,
-- Broker/Log, Broker/Orders, Broker/Faultless, Portfolio/Positions, Portfolio/Flows, Fields/Digits,
-- Fields/Rows, Fields/Booleans, Ladder/Valid, Fields/Decimals. Broker/Log sets a list of the orders given
-- beside the venue, to say what the venue gets. The histories of
-- calls, as indexed data, are Ledger/History and Gateway/History.
-- Each function keeps the name it has in the source; a loop or a lambda that has none is a function of
-- its own.
--
-- State. A method that changes an object is a function from the old record to the new one. The engine's
-- report callback is the list `reports` of the record, newest first: the pipeline's callback only reads
-- the report and never calls the engine back. The engine's hash maps are association lists with
-- the first entry of a key in force, the validator's are functions of the symbol; where the source walks a hash map, in apply_pending_cancels,
-- the order is the list's. A pointer of `order_index_` is the side and the tick of the level where the
-- order rests; reading through it finds the order by its id, or nothing where the pointer dangles. A
-- `throw` is a value beside the state as it is then.
--
-- The gateway and the broker are written against the interface `MatchingEngine` and so for every venue: the
-- engine is an instance of it, and the broker is a venue again. A call of a venue gives the reports that it
-- calls back with, and the decorator handles them in that order when the call is done. That is the same as
-- handling each at once, because the venue never reads the decorator's state. A consumer's callback, which
-- only reads reports, is the list of the reports that a call forwards.
--
-- Numbers. A 64-bit sum is written with its wrap-around (add64); subtractions are those that the source
-- guards. A tick of the engine is an integer, assumed to stay within 64 bits; a tick of the ladder is a
-- natural number, since `L2OrderBook` refuses ticks that are not positive. `double` is the type
-- parameter of the interface `Float`, with the operations that the source uses and no laws; the
-- generator and the binomial distribution of the queue model are the interface `Random`. Loops run over
-- lists of orders, of levels, of orders in flight and of slots, so each is structural recursion and no
-- fuel is needed there. The splitter of a row runs on fuel, the length of the row: each turn of its loop
-- takes a character at least. int64_t positions of the account and of the controls are integers, far inside
-- 64 bits; the casts from and to uint64_t are written out. `std::from_chars` and `std::stod` are parameters.
--
-- Not modelled: text output, the mutex, timing, the readers of files and sockets, the strategies, the
-- venue relay, the command line and the application that wires the parts.
pub mod Accounting
pub mod App
pub mod Base
pub mod Common
pub mod Exchange
pub mod Lines
pub mod Market
pub mod Orderbook
