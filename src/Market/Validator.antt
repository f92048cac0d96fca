-- ===== src/Market/Validator.antt =====
-- `MarketDataValidator` (src/market/market_data_validator.h, market_data_validator.cpp). A map keyed by
-- symbols is a function: `[]` on a missing key makes the default. A `throw` is a fault beside the state
-- as it is then; the checks of an event's own fields share one fault.
use toy_quant_v.Base.{
  ℕ, ◌-◌, max, Bool, true, false, not, ◌&&◌, ◌||◌, List, [], ◌∷◌, Option, none, some, ltb, leb,
  ◌==◌, if◌then◌else◌, Bytes, bytes_eq, add64,
}
use toy_quant_v.Common.Types.{Side, MarketTrade, BboQuote}
use toy_quant_v.Common.Float.{Float}
use toy_quant_v.Common.Batch.{
  DepthLevel, MarketDepthSnapshot, IncrementalBookUpdate, IncrementalBookBatch, is_empty_batch,
  updates_of, has_snapshot,
}

pub record StreamState : Type 0 where
  pub timestamp : ℕ
  pub sequence : ℕ
  pub initialized : Bool

pub record MarketDataValidationConfig (F : Type 0) : Type 0 where
  pub max_bbo_age_ms : ℕ
  pub max_trade_deviation_bps : F
  pub validate_incremental_update_fields : Bool

pub record MarketDataValidationSummary (F : Type 0) : Type 0 where
  pub events : ℕ
  pub trades : ℕ
  pub quotes : ℕ
  pub depth_snapshots : ℕ
  pub incremental_batches : ℕ
  pub incremental_snapshot_batches : ℕ
  pub trades_without_bbo : ℕ
  pub stale_trades : ℕ
  pub dislocated_trades : ℕ
  pub max_bbo_age_ms : ℕ
  pub max_trade_deviation_bps : F

pub record MarketDataValidator (F : Type 0) : Type 0 where
  pub config : MarketDataValidationConfig F
  pub summary : MarketDataValidationSummary F
  pub last_merged_timestamp : ℕ
  pub has_merged_timestamp : Bool
  pub trade_streams : Bytes → StreamState
  pub quote_streams : Bytes → StreamState
  pub depth_streams : Bytes → StreamState
  pub incremental_streams : Bytes → StreamState
  pub incremental_snapshot_active : Bytes → Bool
  pub latest_quotes : Bytes → Option (BboQuote F)

pub data Fault : Type 0 where
  merged_backwards no_timestamp no_sequence timestamp_backwards sequence_not_increasing : Fault
  bad_fields : Fault

pub data MarketEvent (F : Type 0) : Type 0 where
  trade : MarketTrade F → MarketEvent F
  quote : BboQuote F → MarketEvent F
  depth : MarketDepthSnapshot F → MarketEvent F
  incremental : IncrementalBookBatch F → MarketEvent F

-- `map[symbol] = value`
unfoldable pub assign {ℓ} : {V : Type ℓ} → Bytes → V → (Bytes → V) → Bytes → V
assign symbol value m s = if bytes_eq symbol s then value else m s

abbrev pub absent : Bytes → Bool
absent [] = true
absent (b ∷ bs) = false

abbrev pub no_side : Side → Bool
no_side Side.unknown = true
no_side Side.buy = false
no_side Side.sell = false

unfoldable pub validate_ordering : StreamState → ℕ → ℕ → StreamState × Option Fault
validate_ordering state timestamp sequence =
    if timestamp == 0
    then (state, some Fault.no_timestamp)
    else if sequence == 0
    then (state, some Fault.no_sequence)
    else if state.initialized && ltb timestamp state.timestamp
    then (state, some Fault.timestamp_backwards)
    else if state.initialized && leb sequence state.sequence
    then (state, some Fault.sequence_not_increasing)
    else (record { timestamp = timestamp; sequence = sequence; initialized = true }, none)

-- Goes on where nothing was thrown.
abbrev pub then_if_ok {ℓ} : {V : Type ℓ} → Option Fault → V → V × Option Fault → V × Option Fault
then_if_ok none v next = next
then_if_ok (some f) v next = (v, some f)

module _ {F : Type 0} ⦃fl : Float F⦄ where
  -- `require_positive_finite`, where it throws.
  unfoldable pub not_positive_finite : F → Bool
  not_positive_finite value = not (fl.is_finite value) || fl.f_le value fl.f_zero

  -- The statistics of a trade against the latest quote.
  unfoldable pub measure_trade :
      MarketTrade F
      → MarketDataValidator F
      → MarketDataValidationSummary F
      → MarketDataValidationSummary F
  measure_trade t v s = elim (v.latest_quotes t.symbol) [
    | none ↦ record s { trades_without_bbo = add64 s.trades_without_bbo 1 }
    | some q ↦
        let age = if leb q.ts t.ts then t.ts - q.ts else 0 in
        let mid = fl.f_div (fl.f_add q.bid_price q.ask_price) fl.f_two in
        let off = fl.f_mul (fl.f_div (fl.f_abs (fl.f_sub t.price mid)) mid) fl.f_bps in
        record s {
          max_bbo_age_ms = max s.max_bbo_age_ms age;
          stale_trades =
              if ltb v.config.max_bbo_age_ms age then add64 s.stale_trades 1 else s.stale_trades;
          max_trade_deviation_bps =
              if fl.f_lt s.max_trade_deviation_bps off then off else s.max_trade_deviation_bps;
          dislocated_trades =
              if fl.f_lt v.config.max_trade_deviation_bps off
              then add64 s.dislocated_trades 1
              else s.dislocated_trades;
        }
  ]

  unfoldable pub validate_trade :
      MarketTrade F → MarketDataValidator F → MarketDataValidator F × Option Fault
  validate_trade t v =
      let (state, fault) = validate_ordering (v.trade_streams t.symbol) t.ts t.sequence in
      let v1 = record v { trade_streams = assign t.symbol state v.trade_streams } in
      let s = record v.summary { trades = add64 v.summary.trades 1 } in
      then_if_ok fault v1 (
        if absent t.symbol
          || not_positive_finite t.price
          || t.quantity == 0
          || no_side t.aggressor_side
        then (v1, some Fault.bad_fields)
        else (record v1 { summary = measure_trade t v s }, none))

  unfoldable pub validate_quote :
      BboQuote F → MarketDataValidator F → MarketDataValidator F × Option Fault
  validate_quote q v =
      let (state, fault) = validate_ordering (v.quote_streams q.symbol) q.ts q.sequence in
      let v1 = record v { quote_streams = assign q.symbol state v.quote_streams } in
      then_if_ok fault v1 (
        if absent q.symbol
          || not_positive_finite q.bid_price
          || not_positive_finite q.ask_price
          || q.bid_quantity == 0
          || q.ask_quantity == 0
          || fl.f_lt q.ask_price q.bid_price
        then (v1, some Fault.bad_fields)
        else (
          record v1 {
            summary = record v.summary { quotes = add64 v.summary.quotes 1 };
            latest_quotes = assign q.symbol (some q) v.latest_quotes;
          },
          none,
        ))

  -- The loop over one side of a snapshot; `wrong` compares a price with the one before it.
  unfoldable pub bad_levels : (F → F → Bool) → Option F → List (DepthLevel F) → Bool
  bad_levels wrong previous [] = false
  bad_levels wrong previous (x ∷ xs) =
      not_positive_finite x.price
      || x.quantity == 0
      || (elim previous [ none ↦ false | some p ↦ wrong x.price p ])
      || bad_levels wrong (some x.price) xs

  -- `bids.empty() || asks.empty()` and `bids.front().price > asks.front().price`
  unfoldable pub bad_fronts : List (DepthLevel F) → List (DepthLevel F) → Bool
  bad_fronts [] asks = true
  bad_fronts (b ∷ bs) [] = true
  bad_fronts (b ∷ bs) (a ∷ as') = fl.f_lt a.price b.price

  unfoldable pub validate_depth_snapshot :
      MarketDepthSnapshot F → MarketDataValidator F → MarketDataValidator F × Option Fault
  validate_depth_snapshot d v =
      let (state, fault) = validate_ordering (v.depth_streams d.symbol) d.ts d.sequence in
      let v1 = record v { depth_streams = assign d.symbol state v.depth_streams } in
      let s = record v.summary { depth_snapshots = add64 v.summary.depth_snapshots 1 } in
      then_if_ok fault v1 (
        if absent d.symbol
          || bad_fronts d.bids d.asks
          || bad_levels (λ x p. fl.f_le p x) none d.bids
          || bad_levels (λ x p. fl.f_le x p) none d.asks
        then (v1, some Fault.bad_fields)
        else (record v1 { summary = s }, none))

  unfoldable pub bad_updates : ℕ → List (IncrementalBookUpdate F) → Bool
  bad_updates local_ts [] = false
  bad_updates local_ts (u ∷ us) =
      u.exchange_ts == 0
      || not (u.local_ts == local_ts)
      || no_side u.side
      || not_positive_finite u.price
      || bad_updates local_ts us

  unfoldable pub validate_incremental_batch :
      IncrementalBookBatch F → MarketDataValidator F → MarketDataValidator F × Option Fault
  validate_incremental_batch b v =
      let old = v.incremental_streams b.symbol in
      let (state, fault) = validate_ordering old b.exchange_ts (add64 old.sequence 1) in
      let v1 = record v { incremental_streams = assign b.symbol state v.incremental_streams } in
      let snapshot = has_snapshot b in
      let starts = snapshot && not (v.incremental_snapshot_active b.symbol) in
      let n = v.summary.incremental_snapshot_batches in
      if absent b.symbol || is_empty_batch b.updates
      then (v, some Fault.bad_fields)
      else then_if_ok fault v1 (
          if v.config.validate_incremental_update_fields
            && bad_updates b.local_ts (updates_of b.updates)
          then (v1, some Fault.bad_fields)
          else (
            record v1 {
              summary = record v.summary {
                incremental_batches = add64 v.summary.incremental_batches 1;
                incremental_snapshot_batches = if starts then add64 n 1 else n;
              };
              incremental_snapshot_active = assign b.symbol snapshot v.incremental_snapshot_active;
            },
            none,
          ))

  abbrev pub event_time : MarketEvent F → ℕ
  event_time (trade t) = t.ts
  event_time (quote q) = q.ts
  event_time (depth d) = d.ts
  event_time (incremental b) = b.exchange_ts

  unfoldable pub dispatch :
      MarketEvent F → MarketDataValidator F → MarketDataValidator F × Option Fault
  dispatch (trade t) v = validate_trade t v
  dispatch (quote q) v = validate_quote q v
  dispatch (depth d) v = validate_depth_snapshot d v
  dispatch (incremental b) v = validate_incremental_batch b v

  unfoldable pub validate :
      MarketEvent F → MarketDataValidator F → MarketDataValidator F × Option Fault
  validate e v =
      let noted = record v {
        last_merged_timestamp = event_time e;
        has_merged_timestamp = true;
        summary = record v.summary { events = add64 v.summary.events 1 };
      } in
      if v.has_merged_timestamp && ltb (event_time e) v.last_merged_timestamp
      then (v, some Fault.merged_backwards)
      else dispatch e noted
