-- ===== src/Common/Batch.antt =====
-- The depth events of src/common/market_event.h: the snapshot, the incremental update, and
-- `IncrementalUpdates`, which keeps a few updates inside the object and moves to a vector past that.
use toy_quant_v.Base.{
  ℕ, ◌+◌, Bool, true, false, ◌||◌, ◌&&◌, List, [], ◌∷◌, ◌++◌, length, take, set, ltb, if◌then◌else◌,
  Bytes, ◌==◌,
}
use toy_quant_v.Common.Types.{Side}

pub record DepthLevel (F : Type 0) : Type 0 where
  pub price : F
  pub quantity : ℕ

pub record MarketDepthSnapshot (F : Type 0) : Type 0 where
  pub ts : ℕ
  pub symbol : Bytes
  pub sequence : ℕ
  pub bids : List (DepthLevel F)
  pub asks : List (DepthLevel F)
  pub exchange : Bytes

pub record IncrementalBookUpdate (F : Type 0) : Type 0 where
  pub exchange_ts : ℕ
  pub local_ts : ℕ
  pub is_snapshot : Bool
  pub side : Side
  pub price : F
  pub amount : ℕ

abbrev pub inline_capacity : ℕ
inline_capacity = 4

-- `inline_` is the array, with all its `kInlineCapacity` slots.
pub record IncrementalUpdates (F : Type 0) : Type 0 where
  pub inline_slots : List (IncrementalBookUpdate F)
  pub overflow : List (IncrementalBookUpdate F)
  pub count : ℕ

abbrev pub no_elements? : {F : Type 0} → List (IncrementalBookUpdate F) → Bool
no_elements? [] = true
no_elements? (u ∷ us) = false

module _ {F : Type 0} where
  unfoldable pub size : IncrementalUpdates F → ℕ
  size s = if no_elements? s.overflow then s.count else length s.overflow

  unfoldable pub is_empty_batch : IncrementalUpdates F → Bool
  is_empty_batch s = size s == 0

  -- `data()`, and the range from `begin()` to `end()`.
  unfoldable pub data_of : IncrementalUpdates F → List (IncrementalBookUpdate F)
  data_of s = if no_elements? s.overflow then s.inline_slots else s.overflow

  unfoldable pub updates_of : IncrementalUpdates F → List (IncrementalBookUpdate F)
  updates_of s = take (size s) (data_of s)

  unfoldable pub clear_updates : IncrementalUpdates F → IncrementalUpdates F
  clear_updates s = record s { count = 0; overflow = [] }

  unfoldable pub spill_to_overflow : IncrementalUpdates F → IncrementalUpdates F
  spill_to_overflow s = record s { overflow = take s.count s.inline_slots; count = 0 }

  unfoldable pub push_back : IncrementalBookUpdate F → IncrementalUpdates F → IncrementalUpdates F
  push_back u s =
      let spilled = if no_elements? s.overflow then spill_to_overflow s else s in
      if no_elements? s.overflow && ltb s.count inline_capacity
      then record s { inline_slots = set s.inline_slots s.count u; count = s.count + 1 }
      else record spilled { overflow = spilled.overflow ++ u ∷ [] }

  -- `std::any_of` over the range.
  unfoldable pub any_snapshot : List (IncrementalBookUpdate F) → Bool
  any_snapshot [] = false
  any_snapshot (u ∷ us) = u.is_snapshot || any_snapshot us

pub record IncrementalBookBatch (F : Type 0) : Type 0 where
  pub ts : ℕ
  pub exchange_ts : ℕ
  pub local_ts : ℕ
  pub symbol : Bytes
  pub updates : IncrementalUpdates F
  pub exchange : Bytes
  pub snapshot_metadata_valid : Bool
  pub contains_snapshot : Bool

unfoldable pub has_snapshot : {F : Type 0} → IncrementalBookBatch F → Bool
has_snapshot b =
    if b.snapshot_metadata_valid then b.contains_snapshot else any_snapshot (updates_of b.updates)
