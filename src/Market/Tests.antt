-- ===== src/Market/Tests.antt =====
-- The theorem of src/market at two trades with a quote between them.
use toy_quant_v.Base.{ℕ, ◌≡◌, ◌<◌, ◌≤◌, refl, bytes, bytes_eq, true, false, none, [], ◌∷◌, add64}
use toy_quant_v.Common.Types.{Side, MarketTrade, BboQuote}
use toy_quant_v.Exchange.Samples.{whole}
use toy_quant_v.Market.Validator.{
  MarketDataValidator, trade, quote, validate, dispatch, validate_trade, validate_quote,
  validate_ordering, assign, not_positive_finite, measure_trade,
}
use toy_quant_v.Market.Ordering.{validate_in_order, validate_all}

abbrev new_validator : MarketDataValidator ℕ
new_validator = record {
  config = record {
    max_bbo_age_ms = 1000;
    max_trade_deviation_bps = 5;
    validate_incremental_update_fields = true;
  };
  summary = record {
    events = 0;
    trades = 0;
    quotes = 0;
    depth_snapshots = 0;
    incremental_batches = 0;
    incremental_snapshot_batches = 0;
    trades_without_bbo = 0;
    stale_trades = 0;
    dislocated_trades = 0;
    max_bbo_age_ms = 0;
    max_trade_deviation_bps = 0;
  };
  last_merged_timestamp = 0;
  has_merged_timestamp = false;
  trade_streams = λ s. record { timestamp = 0; sequence = 0; initialized = false };
  quote_streams = λ s. record { timestamp = 0; sequence = 0; initialized = false };
  depth_streams = λ s. record { timestamp = 0; sequence = 0; initialized = false };
  incremental_streams = λ s. record { timestamp = 0; sequence = 0; initialized = false };
  incremental_snapshot_active = λ s. false;
  latest_quotes = λ s. none;
}

abbrev print_at : ℕ → ℕ → MarketTrade ℕ
print_at ts sequence = record {
  ts = ts;
  symbol = bytes "X";
  price = 10;
  quantity = 1;
  aggressor_side = Side.buy;
  sequence = sequence;
  exchange = bytes "E";
}

abbrev quote_at : ℕ → BboQuote ℕ
quote_at ts = record {
  ts = ts;
  symbol = bytes "X";
  bid_price = 9;
  bid_quantity = 1;
  ask_price = 11;
  ask_quantity = 1;
  sequence = 7;
  exchange = bytes "E";
}

-- The first trade passes, and so does the second after the quote; a repeated number does not.
validate-runs :
    ((validate (trade (print_at 1 4)) new_validator).1 ≡ none)
    × ((validate (trade (print_at 3 5)) (
          validate_all
            (quote (quote_at 2) ∷ [])
            (validate (trade (print_at 1 4)) new_validator).0)).1
        ≡ none)
unfolding validate dispatch validate_trade validate_quote validate_ordering assign
    not_positive_finite measure_trade bytes_eq add64
validate-runs = (refl, refl)

validate_in_order_example : (4 < 5) × (1 ≤ 3)
validate_in_order_example =
    validate_in_order (print_at 1 4) (print_at 3 5) (quote (quote_at 2) ∷ []) new_validator refl
      validate-runs.0 validate-runs.1
