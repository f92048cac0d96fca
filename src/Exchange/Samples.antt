-- ===== src/Exchange/Samples.antt =====
-- Concrete data for the tests: whole numbers for `double`, a generator that never draws, and engines
-- with a few orders.
use toy_quant_v.Base.{
  ◌^◌, ◌==◌, true, ℕ, ◌+◌, ◌-◌, ◌*◌, ◌/◌, pos, pos_part, Bytes, bytes, [], ◌∷◌, ltb, leb,
}
use toy_quant_v.Common.Types.{TimeInForce, QueueModel}
use toy_quant_v.Common.Float.{Float}
use toy_quant_v.Common.Fees.{FeeSchedule}
use toy_quant_v.Exchange.Order.{Order, OrderSide, OrderType}
use toy_quant_v.Exchange.Queue.{Random}
use toy_quant_v.Exchange.Book.{Levels}
use toy_quant_v.Exchange.Sweep.{Sweep}
use toy_quant_v.Exchange.Engine.{Engine, MatchingEngineConfig, new_engine}

instance abbrev pub whole : Float ℕ
whole = record {
  f_zero = 0;
  f_half = 0;
  decimal = λ m k. m / 10 ^ k;
  f_one = 1;
  f_two = 2;
  f_bps = 10000;
  f_add = ◌+◌;
  f_sub = ◌-◌;
  f_mul = ◌*◌;
  f_div = ◌/◌;
  f_lt = ltb;
  f_le = leb;
  is_finite = λ n. true;
  f_round = λ n. n;
  f_abs = λ n. n;
  f_neg = λ n. 0;
  f_eq = ◌==◌;
  of_u64 = λ n. n;
  of_i64 = pos_part;
  to_u64 = λ n. n;
  llround = pos;
  llround_u64 = λ n. n;
}

instance abbrev pub still : Random ℕ ℕ
still = record { seeded = λ n. n; binomial = λ r n p. (0, r) }

abbrev pub no_fees : FeeSchedule ℕ
no_fees = record {
  maker_rate = 0;
  taker_rate = 0;
  quantity_scale = 1;
  unit_notional_usd = 0;
  multiplier = 1;
  fee_per_share = 0;
  min_commission_per_order = 0;
  regulatory_fee_rate = 0;
  clearing_fee_per_share = 0;
  audit_fee_per_share = 0;
  maker_rebate_per_share = 0;
}

abbrev pub plain : MatchingEngineConfig ℕ
plain = record {
  cancel_delay_events = 0;
  queue_model = QueueModel.pro_rata;
  queue_lump_chunks = 1;
  queue_seed = 7;
  arrival_share = 1;
  order_latency_us = 0;
  cancel_latency_us = 0;
  lot_size = 1;
  min_order_quantity = 1;
  participation_limit = 1;
}

-- An order of `owner` for `n` at `price`, in the order of the fields that differ.
abbrev pub order_of : ℕ → OrderSide → ℕ → ℕ → Bytes → TimeInForce → Order ℕ
order_of id side price n owner tif = record {
  id = id;
  symbol = bytes "EURUSD";
  side = side;
  order_type = OrderType.limit;
  price = price;
  qty = n;
  remaining = n;
  ts = 1;
  owner = owner;
  time_in_force = tif;
}

abbrev pub ask_1 : Order ℕ
ask_1 = order_of 1 OrderSide.sell 10 5 (bytes "A") TimeInForce.gtc

abbrev pub ask_2 : Order ℕ
ask_2 = order_of 2 OrderSide.sell 11 7 (bytes "B") TimeInForce.gtc

abbrev pub buy_8 : Order ℕ
buy_8 = order_of 3 OrderSide.buy 11 8 (bytes "C") TimeInForce.fok

abbrev pub two_asks : Levels ℕ
two_asks =
    (pos 10, record { orders = ask_1 ∷ []; external_queue_ahead = 0 })
    ∷ (pos 11, record { orders = ask_2 ∷ []; external_queue_ahead = 4 })
    ∷ []

abbrev pub sweep_8 : Sweep ℕ
sweep_8 = record {
  qty = 8;
  order_index = [];
  reports = [];
  queue_ahead_consumed = 0;
  side_consumed = 0;
  side_cleared = 0;
}

abbrev pub fresh : Engine ℕ ℕ
fresh = new_engine whole still 1 no_fees plain

abbrev pub asking : Engine ℕ ℕ
asking = record fresh { books = (1, record { bids = []; asks = two_asks }) ∷ [] }
