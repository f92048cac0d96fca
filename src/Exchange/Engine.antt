-- ===== src/Exchange/Engine.antt =====
-- The state of `MatchingEngine` (src/exchange/matching_engine.h) and its construction. The report
-- callback is the list `reports`, newest first: the pipeline's callback does not call the engine back.
pub mod Match
pub mod Touch
pub mod Send
pub mod Cancel
pub mod Feed
pub mod Fok
pub mod Refuse
pub mod Latency
pub mod Pointers
pub mod SelfTrade
pub mod Immediate
use toy_quant_v.Base.{
  ℕ, ◌+◌, ◌%◌, Bytes, bytes_eq, Bool, true, false, List, [], ◌∷◌, Option, none, some, ◌==◌,
  if◌then◌else◌, add64, get_or,
}
use toy_quant_v.Base.Maps.{lookup, insert}
use toy_quant_v.Common.Types.{BboQuote, QueueModel}
use toy_quant_v.Common.Float.{Float}
use toy_quant_v.Common.Fees.{FeeSchedule}
use toy_quant_v.Exchange.Order.{Order, ExecutionReport}
use toy_quant_v.Exchange.Queue.{QueueAheadModel, Random, queue_ahead_model}
use toy_quant_v.Exchange.Book.{MeOrderBook, empty_book}
use toy_quant_v.Exchange.Sweep.{Place}

pub record MatchingEngineConfig (F : Type 0) : Type 0 where
  pub cancel_delay_events : ℕ
  pub queue_model : QueueModel
  pub queue_lump_chunks : ℕ
  pub queue_seed : ℕ
  pub arrival_share : F
  pub order_latency_us : ℕ
  pub cancel_latency_us : ℕ
  pub lot_size : ℕ
  pub min_order_quantity : ℕ
  pub participation_limit : F

pub record PendingCancel : Type 0 where
  pub due_event : ℕ
  pub due_time : ℕ

-- What the constructor sets once.
pub record Terms (F : Type 0) : Type 0 where
  pub tick_size : F
  pub fee_schedule : FeeSchedule F
  pub arrival_share : F
  pub order_latency_us : ℕ
  pub cancel_latency_us : ℕ
  pub cancel_delay_events : ℕ
  pub lot_size : ℕ
  pub min_order_quantity : ℕ
  pub participation_limit : F

pub record Engine (F R : Type 0) : Type 0 where
  pub terms : Terms F
  pub open terms use *
  pub rejected_orders : ℕ
  pub symbol_ids : List (Bytes × ℕ)
  pub next_symbol_id : ℕ
  pub books : List (ℕ × MeOrderBook F)
  pub external_bbo : List (ℕ × BboQuote F)
  pub last_bid_trade_ts : List (ℕ × ℕ)
  pub last_ask_trade_ts : List (ℕ × ℕ)
  pub l2_top_bbo : List (ℕ × BboQuote F)
  pub queue_ahead_ids : List ℕ
  pub order_index : List (ℕ × Place)
  pub reports : List (ExecutionReport F)
  pub queue_ahead_consumed : ℕ
  pub buy_queue_ahead_consumed : ℕ
  pub sell_queue_ahead_consumed : ℕ
  pub buy_queue_ahead_cleared : ℕ
  pub sell_queue_ahead_cleared : ℕ
  pub buy_queue_from_quantity_changes : ℕ
  pub sell_queue_from_quantity_changes : ℕ
  pub queue_model : QueueAheadModel R
  pub now_us : ℕ
  pub in_flight_orders : List (ℕ × Order F)
  pub event_counter : ℕ
  pub pending_cancels : List (ℕ × PendingCancel)

unfoldable pub find_symbol_in : Bytes → List (Bytes × ℕ) → ℕ
find_symbol_in symbol [] = 0
find_symbol_in symbol ((s, id) ∷ ids) = if bytes_eq s symbol then id else find_symbol_in symbol ids

-- `kUnknownSymbol`
abbrev pub unknown_symbol : ℕ
unknown_symbol = 0

unfoldable pub one_if_zero : ℕ → ℕ
one_if_zero n = if n == 0 then 1 else n

module _ {F R : Type 0} (fl : Float F) (rnd : Random F R) where
  open fl use {f_zero, f_one, f_lt, f_le}

  unfoldable pub clamp_share : F → F
  clamp_share x = if f_lt x f_zero then f_zero else if f_lt f_one x then f_one else x

  unfoldable pub clamp_limit : F → F
  clamp_limit x = if f_le x f_zero then f_zero else if f_le f_one x then f_one else x

  -- The constructor.
  unfoldable pub new_engine : F → FeeSchedule F → MatchingEngineConfig F → Engine F R
  new_engine tick_size fee_schedule config = record {
    terms = record {
      tick_size = tick_size;
      fee_schedule = fee_schedule;
      arrival_share = clamp_share config.arrival_share;
      order_latency_us = config.order_latency_us;
      cancel_latency_us = config.cancel_latency_us;
      cancel_delay_events = config.cancel_delay_events;
      lot_size = one_if_zero config.lot_size;
      min_order_quantity = one_if_zero config.min_order_quantity;
      participation_limit = clamp_limit config.participation_limit;
    };
    rejected_orders = 0;
    symbol_ids = [];
    next_symbol_id = 1;
    books = [];
    external_bbo = [];
    last_bid_trade_ts = [];
    last_ask_trade_ts = [];
    l2_top_bbo = [];
    queue_ahead_ids = [];
    order_index = [];
    reports = [];
    queue_ahead_consumed = 0;
    buy_queue_ahead_consumed = 0;
    sell_queue_ahead_consumed = 0;
    buy_queue_ahead_cleared = 0;
    sell_queue_ahead_cleared = 0;
    buy_queue_from_quantity_changes = 0;
    sell_queue_from_quantity_changes = 0;
    queue_model =
        queue_ahead_model fl rnd config.queue_model config.queue_lump_chunks config.queue_seed;
    now_us = 0;
    in_flight_orders = [];
    event_counter = 0;
    pending_cancels = [];
  }

module _ {F R : Type 0} where
  unfoldable pub find_symbol : Engine F R → Bytes → ℕ
  find_symbol e symbol = find_symbol_in symbol e.symbol_ids

  -- The id for a symbol, and the registry with the symbol entered on first sight.
  unfoldable pub symbol_id : Engine F R → Bytes → ℕ × Engine F R
  symbol_id e symbol =
      let found = find_symbol e symbol in
      if found == unknown_symbol
      then (
        e.next_symbol_id,
        record e {
          symbol_ids = (symbol, e.next_symbol_id) ∷ e.symbol_ids;
          next_symbol_id = (e.next_symbol_id + 1) % 4_294_967_296;
        },
      )
      else (found, e)

  -- `books_[id]`
  unfoldable pub book_at : Engine F R → ℕ → MeOrderBook F
  book_at e id = elim (lookup id e.books) [ none ↦ empty_book | some b ↦ b ]

  unfoldable pub put_report : ExecutionReport F → Engine F R → Engine F R
  put_report r e = record e { reports = r ∷ e.reports }

  unfoldable pub reject_order : Engine F R → Engine F R
  reject_order e = record e { rejected_orders = add64 e.rejected_orders 1 }
