-- ===== src/Orderbook/Tests.antt =====
-- The theorems of src/orderbook at small inputs: a bid ladder that holds 5 at tick 100, and 7 at tick
-- 5000 after its range grew.
use toy_quant_v.Base.{
  length, refl, get_elem?, take, replicate, false, bytes, ◌++◌, ◌∷◌, [], arith, ℕ, ◌≡◌, true, ◌==◌,
  if◌then◌else◌,
}
use toy_quant_v.Orderbook.Ladder.{TickLadder, new_ladder, set_level, clear}
use toy_quant_v.Orderbook.Ladder.Lookup.{quantity_at, quantity_at-set_level}
use toy_quant_v.Orderbook.Ladder.Valid.{IsValid, new_ladder-IsValid, clear-IsValid}
use toy_quant_v.Orderbook.Ladder.Best.{set_level-IsValid}
use toy_quant_v.Orderbook.Ladder.Walk.{nth, top_levels}
use toy_quant_v.Orderbook.Ladder.Levels.{ladder_levels}
use toy_quant_v.Orderbook.Ladder.Nth.{nth-ladder_levels}
use toy_quant_v.Orderbook.Ladder.Top.{summary, top_levels-summary}
use toy_quant_v.Common.Types.{Side}
use toy_quant_v.Common.Batch.{
  IncrementalBookUpdate, IncrementalUpdates, inline_capacity, push_back, updates_of,
  MarketDepthSnapshot, IncrementalBookBatch,
}
use toy_quant_v.Common.Updates.{IsStored, updates_of-push_back}
use toy_quant_v.Orderbook.Book.{new_book}
use toy_quant_v.Orderbook.Book.Valid.{IsBook}
use toy_quant_v.Orderbook.Book.History.{calls, snapshot, batch, calls-IsBook}
use toy_quant_v.Exchange.Samples.{whole}

abbrev one_bid : TickLadder
one_bid = set_level 100 5 (new_ladder true)

one_bid-IsValid : IsValid one_bid
one_bid-IsValid = set_level-IsValid 100 5 (new_ladder true) (new_ladder-IsValid true)

quantity_at-set_level_example :
    quantity_at (set_level 5000 7 one_bid) 100
    ≡ (if 5000 == 100 then 7 else quantity_at one_bid 100)
quantity_at-set_level_example = quantity_at-set_level one_bid 5000 7 100

set_level-IsValid_example : IsValid (set_level 5000 7 one_bid)
set_level-IsValid_example = set_level-IsValid 5000 7 one_bid one_bid-IsValid

clear-IsValid_example :
    IsValid (clear one_bid)
    × ((t : ℕ) → quantity_at (clear one_bid) t ≡ 0)
    × ((clear one_bid).base ≡ one_bid.base)
    × (length (clear one_bid).quantity ≡ length one_bid.quantity)
    × ((clear one_bid).descending ≡ one_bid.descending)
clear-IsValid_example = clear-IsValid one_bid one_bid-IsValid

nth-ladder_levels_example : nth 1 one_bid ≡ get_elem? (ladder_levels one_bid) 1
nth-ladder_levels_example = nth-ladder_levels 1 one_bid one_bid-IsValid

top_levels-summary_example :
    top_levels 5 (set_level 5000 7 one_bid)
    ≡ summary (take 5 (ladder_levels (set_level 5000 7 one_bid)))
top_levels-summary_example =
    top_levels-summary 5 (set_level 5000 7 one_bid)
      (set_level-IsValid 5000 7 one_bid one_bid-IsValid)

-- An update that sells 3 at price 12, and an empty batch to push it to.
abbrev sell_3 : IncrementalBookUpdate ℕ
sell_3 = record {
  exchange_ts = 1;
  local_ts = 2;
  is_snapshot = false;
  side = Side.sell;
  price = 12;
  amount = 3;
}

abbrev no_updates : IncrementalUpdates ℕ
no_updates = record { inline_slots = replicate inline_capacity sell_3; overflow = []; count = 0 }

updates_of-push_back_example :
    IsStored (push_back sell_3 no_updates)
    × (updates_of (push_back sell_3 no_updates) ≡ updates_of no_updates ++ sell_3 ∷ [])
updates_of-push_back_example =
    updates_of-push_back sell_3 no_updates (record { slots = refl; in_use = omega arith })

abbrev first_depth : MarketDepthSnapshot ℕ
first_depth = record {
  ts = 1;
  symbol = bytes "BTC";
  sequence = 1;
  bids = record { price = 10; quantity = 5 } ∷ record { price = 9; quantity = 2 } ∷ [];
  asks = record { price = 11; quantity = 4 } ∷ [];
  exchange = bytes "X";
}

abbrev one_update : IncrementalBookBatch ℕ
one_update = record {
  ts = 2;
  exchange_ts = 2;
  local_ts = 2;
  symbol = bytes "BTC";
  updates = push_back sell_3 no_updates;
  exchange = bytes "X";
  snapshot_metadata_valid = false;
  contains_snapshot = false;
}

calls-IsBook_example : IsBook (calls (new_book 1) (snapshot first_depth ∷ batch one_update ∷ []))
calls-IsBook_example = calls-IsBook 1 (snapshot first_depth ∷ batch one_update ∷ [])
