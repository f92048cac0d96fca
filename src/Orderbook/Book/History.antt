-- ===== src/Orderbook/Book/History.antt =====
-- Histories of calls of `L2OrderBook` (src/orderbook/l2_orderbook.cpp).
use toy_quant_v.Base.{List, [], ◌∷◌, ◌⊎◌, inl, inr}
use toy_quant_v.Common.Float.{Float}
use toy_quant_v.Common.Batch.{MarketDepthSnapshot, IncrementalBookBatch}
use toy_quant_v.Orderbook.Book.{
  L2OrderBook, Refusal, new_book, apply_snapshot, apply_incremental_batch,
}
use toy_quant_v.Orderbook.Book.Valid.{
  IsBook, Accepted, new_book-IsBook, apply_snapshot-IsBook, apply_incremental_batch-IsBook,
}

-- A call of the book by the feed.
pub data Call (F : Type 0) : Type 0 where
  snapshot : MarketDepthSnapshot F → Call F
  batch : IncrementalBookBatch F → Call F

module _ {F : Type 0} ⦃fl : Float F⦄ where
  -- The book after a call. The feed catches what the call throws.
  abbrev pub call : L2OrderBook F → Call F → L2OrderBook F
  call b (snapshot s) = elim (apply_snapshot s b) [ inl r ↦ b | inr b' ↦ b' ]
  call b (batch x) = (apply_incremental_batch x b).0

  abbrev pub calls : L2OrderBook F → List (Call F) → L2OrderBook F
  calls b [] = b
  calls b (c ∷ cs) = calls (call b c) cs

  Accepted-IsBook :
      (r : Refusal ⊎ L2OrderBook F) (b : L2OrderBook F)
      → Accepted IsBook r
      → IsBook b
      → IsBook (elim r [ inl e ↦ b | inr b' ↦ b' ])
  Accepted-IsBook (inl e) b a v = v
  Accepted-IsBook (inr b') b a v = a

  calls-IsBook_from : (cs : List (Call F)) (b : L2OrderBook F) → IsBook b → IsBook (calls b cs)
  calls-IsBook_from [] b v = v
  calls-IsBook_from (snapshot s ∷ cs) b v =
      calls-IsBook_from cs _ (Accepted-IsBook (apply_snapshot s b) b (apply_snapshot-IsBook s b) v)
  calls-IsBook_from (batch x ∷ cs) b v =
      calls-IsBook_from cs _ (apply_incremental_batch-IsBook x b v)

  -- After any history of snapshots and incremental batches, the refused ones and those that stopped at
  -- a bad update included, both ladders of a new book are right: each count is the number of its
  -- levels, each best tick the best of them, the bids are ordered downwards and the asks upwards.
  pub calls-IsBook : (tick_size : F) (cs : List (Call F)) → IsBook (calls (new_book tick_size) cs)
  calls-IsBook tick_size cs = calls-IsBook_from cs (new_book tick_size) (new_book-IsBook tick_size)
