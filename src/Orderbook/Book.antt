-- ===== src/Orderbook/Book.antt =====
-- `L2OrderBook` (src/orderbook/l2_orderbook.h, l2_orderbook.cpp) over two ladders. The mutex makes each
-- call one step. A `throw` is a refusal with the state as it is then: `apply_snapshot` changes nothing
-- before its last check, `apply_incremental_batch` keeps what it has changed so far.
pub mod Valid
pub mod History
use toy_quant_v.Base.{
  ℕ, suc, ◌+◌, ℤ, pos, negsuc, Bool, true, false, not, ◌&&◌, ◌||◌, List, [], ◌∷◌, Option, none,
  some, ltb, leb, ◌==◌, if◌then◌else◌, Bytes, bytes_eq, add64, ◌⊎◌, inl, inr,
}
use toy_quant_v.Common.Types.{Side}
use toy_quant_v.Common.Float.{Float, to_price_tick, to_price}
use toy_quant_v.Common.Batch.{
  DepthLevel, MarketDepthSnapshot, IncrementalBookUpdate, IncrementalBookBatch, is_empty_batch,
  updates_of, has_snapshot,
}
use toy_quant_v.Orderbook.Ladder.{TickLadder, new_ladder, set_level, clear, better}
use toy_quant_v.Orderbook.Ladder.Walk.{TopLevels, top_levels, nth}

pub record L2OrderBook (F : Type 0) : Type 0 where
  pub symbol : Bytes
  pub tick_size : F
  pub price_scale : F
  pub bids : TickLadder
  pub asks : TickLadder
  pub timestamp : ℕ
  pub local_timestamp : ℕ
  pub sequence : ℕ
  pub snapshot_batch_active : Bool

-- One constructor per `throw`.
pub data Refusal : Type 0 where
  empty_symbol bad_metadata symbol_changed sequence_not_increasing timestamp_backwards : Refusal
  local_timestamp_backwards invalid_level not_monotone one_sided crossed : Refusal
  invalid_update invalid_price : Refusal

abbrev pub no_text : Bytes → Bool
no_text [] = true
no_text (b ∷ bs) = false

-- A tick that the book takes: a positive one.
abbrev pub positive_tick : ℤ → Option ℕ
positive_tick (pos n) = if n == 0 then none else some n
positive_tick (negsuc n) = none

-- `next_bids.best() > next_asks.best()`, on two ladders that are not empty.
unfoldable pub crossed? : TickLadder → TickLadder → Bool
crossed? bids asks = elim bids.best [
  | none ↦ false
  | some bid ↦ elim asks.best [ none ↦ true | some ask ↦ ltb ask bid ]
]

abbrev pub unknown_side? : Side → Bool
unknown_side? Side.unknown = true
unknown_side? Side.buy = false
unknown_side? Side.sell = false

module _ {F : Type 0} ⦃fl : Float F⦄ where
  unfoldable pub new_book : F → L2OrderBook F
  new_book tick_size = record {
    symbol = [];
    tick_size = tick_size;
    price_scale = fl.f_div fl.f_one tick_size;
    bids = new_ladder true;
    asks = new_ladder false;
    timestamp = 0;
    local_timestamp = 0;
    sequence = 0;
    snapshot_batch_active = false;
  }

  -- `!std::isfinite(price) || price <= 0.0`
  unfoldable pub bad_price : F → Bool
  bad_price price = not (fl.is_finite price) || fl.f_le price fl.f_zero

  -- The loops over `snapshot.bids` and `snapshot.asks`: each tick is worse than the one before it.
  unfoldable pub load_levels :
      F → Option ℕ → List (DepthLevel F) → TickLadder → Refusal ⊎ TickLadder
  load_levels tick_size previous [] l = inr l
  load_levels tick_size previous (x ∷ xs) l =
      if bad_price x.price || x.quantity == 0
      then inl Refusal.invalid_level
      else elim (positive_tick (to_price_tick x.price tick_size)) [
        | none ↦ inl Refusal.not_monotone
        | some tick ↦
            let ordered : Bool = elim previous [
              | none ↦ true
              | some p ↦ better l.descending p tick
            ] in
            let rest = load_levels tick_size (some tick) xs (set_level tick x.quantity l) in
            if ordered then rest else inl Refusal.not_monotone
      ]

  -- The checks of `apply_snapshot` that stand before the loops.
  unfoldable pub snapshot_refusal : MarketDepthSnapshot F → L2OrderBook F → Option Refusal
  snapshot_refusal s b =
      if no_text s.symbol
      then some Refusal.empty_symbol
      else if s.ts == 0 || s.sequence == 0
      then some Refusal.bad_metadata
      else if not (no_text b.symbol) && not (bytes_eq s.symbol b.symbol)
      then some Refusal.symbol_changed
      else if not (b.sequence == 0) && leb s.sequence b.sequence
      then some Refusal.sequence_not_increasing
      else if not (b.timestamp == 0) && ltb s.ts b.timestamp
      then some Refusal.timestamp_backwards
      else none

  unfoldable pub finish_snapshot :
      MarketDepthSnapshot F → TickLadder → TickLadder → L2OrderBook F → Refusal ⊎ L2OrderBook F
  finish_snapshot s bids asks b =
      if bids.count == 0 || asks.count == 0
      then inl Refusal.one_sided
      else if crossed? bids asks
      then inl Refusal.crossed
      else inr (record b {
        symbol = s.symbol;
        bids = bids;
        asks = asks;
        timestamp = s.ts;
        local_timestamp = 0;
        sequence = s.sequence;
      })

  unfoldable pub apply_snapshot : MarketDepthSnapshot F → L2OrderBook F → Refusal ⊎ L2OrderBook F
  apply_snapshot s b = elim (snapshot_refusal s b) [
    | some r ↦ inl r
    | none ↦ elim (load_levels b.tick_size none s.bids (new_ladder true)) [
      | inl r ↦ inl r
      | inr bids ↦ elim (load_levels b.tick_size none s.asks (new_ladder false)) [
        | inl r ↦ inl r
        | inr asks ↦ finish_snapshot s bids asks b
      ]
    ]
  ]

  unfoldable pub set_side : Side → ℕ → ℕ → L2OrderBook F → L2OrderBook F
  set_side Side.buy tick amount b = record b { bids = set_level tick amount b.bids }
  set_side Side.sell tick amount b = record b { asks = set_level tick amount b.asks }
  set_side Side.unknown tick amount b = record b { asks = set_level tick amount b.asks }

  -- The loop over `batch.updates`: the book as far as it went, and the throw that ended it.
  unfoldable pub apply_updates :
      ℕ → List (IncrementalBookUpdate F) → L2OrderBook F → L2OrderBook F × Option Refusal
  apply_updates local_ts [] b = (b, none)
  apply_updates local_ts (u ∷ us) b =
      if u.exchange_ts == 0
        || not (u.local_ts == local_ts)
        || unknown_side? u.side
        || bad_price u.price
      then (b, some Refusal.invalid_update)
      else elim (positive_tick (to_price_tick u.price b.tick_size)) [
        | none ↦ (b, some Refusal.invalid_price)
        | some tick ↦ apply_updates local_ts us (set_side u.side tick u.amount b)
      ]

  unfoldable pub batch_refusal : IncrementalBookBatch F → L2OrderBook F → Option Refusal
  batch_refusal batch b =
      if not (bytes_eq batch.symbol b.symbol)
      then some Refusal.symbol_changed
      else if not (b.timestamp == 0) && ltb batch.exchange_ts b.timestamp
      then some Refusal.timestamp_backwards
      else if not (b.local_timestamp == 0) && ltb batch.local_ts b.local_timestamp
      then some Refusal.local_timestamp_backwards
      else none

  -- A batch that starts a snapshot empties both sides first; one that goes on with it does not.
  unfoldable pub enter_batch : Bool → L2OrderBook F → L2OrderBook F
  enter_batch reset b =
      let cleared = record b { bids = clear b.bids; asks = clear b.asks } in
      record (if reset && not b.snapshot_batch_active then cleared else b) {
        snapshot_batch_active = reset;
      }

  unfoldable pub finish_batch :
      IncrementalBookBatch F → L2OrderBook F × Option Refusal → L2OrderBook F × Option Refusal
  finish_batch batch (b, some r) = (b, some r)
  finish_batch batch (b, none) = (
    record b {
      timestamp = batch.exchange_ts;
      local_timestamp = batch.local_ts;
      sequence = add64 b.sequence 1;
    },
    none,
  )

  unfoldable pub apply_incremental_batch :
      IncrementalBookBatch F → L2OrderBook F → L2OrderBook F × Option Refusal
  apply_incremental_batch batch b =
      let named = if no_text b.symbol then record b { symbol = batch.symbol } else b in
      if is_empty_batch batch.updates
      then (b, none)
      else if no_text batch.symbol || batch.exchange_ts == 0 || batch.local_ts == 0
      then (b, some Refusal.bad_metadata)
      else elim (batch_refusal batch named) [
        | some r ↦ (named, some r)
        | none ↦ finish_batch batch (
            apply_updates batch.local_ts (updates_of batch.updates)
              (enter_batch (has_snapshot batch) named))
      ]
