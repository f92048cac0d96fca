-- ===== src/Orderbook/Book/Valid.antt =====
-- Both ladders of `L2OrderBook` (src/orderbook/l2_orderbook.cpp) stay right.
use toy_quant_v.Base.{
  ℕ, ◌≡◌, refl, Bool, true, false, List, [], ◌∷◌, Option, none, some, ◌⊎◌, inl, inr, arith,
  Bool-cases, ◌∙◌, if◌then◌else◌, ◌==◌, ◌||◌, ◌&&◌, subst, Bytes, not,
}
use toy_quant_v.Common.Types.{Side}
use toy_quant_v.Common.Float.{Float, to_price_tick}
use toy_quant_v.Common.Batch.{
  DepthLevel, MarketDepthSnapshot, IncrementalBookUpdate, IncrementalBookBatch, is_empty_batch,
  updates_of, has_snapshot,
}
use toy_quant_v.Orderbook.Ladder.{
  TickLadder, new_ladder, set_level, clear, set_slot, grow_to_cover, advance_best_hint, better,
}
use toy_quant_v.Orderbook.Ladder.Valid.{IsValid, new_ladder-IsValid, clear-IsValid}
use toy_quant_v.Orderbook.Ladder.Best.{set_level-IsValid}
use toy_quant_v.Orderbook.Book.{
  L2OrderBook, Refusal, new_book, load_levels, snapshot_refusal, finish_snapshot, apply_snapshot,
  set_side, apply_updates, batch_refusal, enter_batch, finish_batch, apply_incremental_batch,
  no_text, positive_tick, bad_price, crossed?, unknown_side?,
}

-- Each ladder is right and is of its side.
pub record IsBook {F : Type 0} (b : L2OrderBook F) : Type 0 where
  pub bids_valid : IsValid b.bids
  pub asks_valid : IsValid b.asks
  pub bids_down : b.bids.descending ≡ true
  pub asks_up : b.asks.descending ≡ false

descending-set_level :
    (tick q : ℕ) (l : TickLadder) → (set_level tick q l).descending ≡ l.descending
unfolding set_level set_slot grow_to_cover advance_best_hint
descending-set_level tick q l = ground arith

if-holds {ℓ κ} :
    {A : Type ℓ} (P : A → Type κ) (c : Bool) {x y : A} → P x → P y → P (if c then x else y)
if-holds P true p q = p
if-holds P false p q = q

-- What holds of a result, where it is not a refusal.
abbrev pub Accepted {ℓ κ} : {A : Type ℓ} → (A → Type κ) → Refusal ⊎ A → Type κ
Accepted P (inl r) = Unit
Accepted P (inr x) = P x

Option-holds {ℓ κ μ} :
    {A : Type ℓ} {B : Type κ} (P : B → Type μ) (o : Option A) {n : B} {f : A → B}
    → P n
    → ((a : A) → P (f a))
    → P (elim o [ none ↦ n | some a ↦ f a ])
Option-holds P none p q = p
Option-holds P (some a) p q = q a

Accepted-bind {ℓ κ μ ν} :
    {A : Type ℓ} {B : Type κ} (P : A → Type μ) (Q : B → Type ν) (r : Refusal ⊎ A)
    (f : A → Refusal ⊎ B)
    → Accepted P r
    → ((a : A) → P a → Accepted Q (f a))
    → Accepted Q (elim r [ inl e ↦ inl e | inr a ↦ f a ])
Accepted-bind P Q (inl e) f p q = tt
Accepted-bind P Q (inr a) f p q = q a p

module _ {F : Type 0} ⦃fl : Float F⦄ where
  set_side-IsBook :
      (side : Side) (tick amount : ℕ) (b : L2OrderBook F)
      → IsBook b
      → IsBook (set_side side tick amount b)
  unfolding set_side
  set_side-IsBook Side.buy tick amount b v = record {
    bids_valid = set_level-IsValid tick amount b.bids v.bids_valid;
    asks_valid = v.asks_valid;
    bids_down = descending-set_level tick amount b.bids ∙ v.bids_down;
    asks_up = v.asks_up;
  }
  set_side-IsBook Side.sell tick amount b v = record {
    bids_valid = v.bids_valid;
    asks_valid = set_level-IsValid tick amount b.asks v.asks_valid;
    bids_down = v.bids_down;
    asks_up = descending-set_level tick amount b.asks ∙ v.asks_up;
  }
  set_side-IsBook Side.unknown tick amount b v = record {
    bids_valid = v.bids_valid;
    asks_valid = set_level-IsValid tick amount b.asks v.asks_valid;
    bids_down = v.bids_down;
    asks_up = descending-set_level tick amount b.asks ∙ v.asks_up;
  }

  apply_updates-IsBook :
      (local_ts : ℕ) (us : List (IncrementalBookUpdate F)) (b : L2OrderBook F)
      → IsBook b
      → IsBook (apply_updates local_ts us b).0
  unfolding apply_updates
  apply_updates-IsBook local_ts [] b v = v
  apply_updates-IsBook local_ts (u ∷ us) b v =
      if-holds (λ (x : L2OrderBook F × Option Refusal). IsBook x.0)
        (u.exchange_ts == 0
          || not (u.local_ts == local_ts)
          || unknown_side? u.side
          || bad_price u.price)
        v
        (elim (positive_tick (to_price_tick u.price b.tick_size))
          as (λ o.
            IsBook
              (elim o as (λ _. L2OrderBook F × Option Refusal) [
                | none ↦ (b, some Refusal.invalid_price)
                | some tick ↦ apply_updates local_ts us (set_side u.side tick u.amount b)
              ]).0) [
                | none ↦ v
                | some tick ↦
                    apply_updates-IsBook local_ts us (set_side u.side tick u.amount b)
                      (set_side-IsBook u.side tick u.amount b v)
              ])

  pub new_book-IsBook : (tick_size : F) → IsBook (new_book tick_size)
  unfolding new_book new_ladder
  new_book-IsBook tick_size = record {
    bids_valid = new_ladder-IsValid true;
    asks_valid = new_ladder-IsValid false;
    bids_down = refl;
    asks_up = refl;
  }

  enter_batch-IsBook : (reset : Bool) (b : L2OrderBook F) → IsBook b → IsBook (enter_batch reset b)
  unfolding enter_batch clear
  enter_batch-IsBook reset b v = elim (Bool-cases (reset && not b.snapshot_batch_active)) [
    | inl start ↦ rw start (record {
      bids_valid = (clear-IsValid b.bids v.bids_valid).0;
      asks_valid = (clear-IsValid b.asks v.asks_valid).0;
      bids_down = v.bids_down;
      asks_up = v.asks_up;
    })
    | inr on ↦ rw on (record {
      bids_valid = v.bids_valid;
      asks_valid = v.asks_valid;
      bids_down = v.bids_down;
      asks_up = v.asks_up;
    })
  ]

  finish_batch-IsBook :
      (batch : IncrementalBookBatch F) (x : L2OrderBook F × Option Refusal)
      → IsBook x.0
      → IsBook (finish_batch batch x).0
  unfolding finish_batch
  finish_batch-IsBook batch (b, some r) v = v
  finish_batch-IsBook batch (b, none) v = record {
    bids_valid = v.bids_valid;
    asks_valid = v.asks_valid;
    bids_down = v.bids_down;
    asks_up = v.asks_up;
  }

  named-IsBook :
      (symbol : Bytes) (b : L2OrderBook F) → IsBook b → IsBook (record b { symbol = symbol })
  named-IsBook symbol b v = record {
    bids_valid = v.bids_valid;
    asks_valid = v.asks_valid;
    bids_down = v.bids_down;
    asks_up = v.asks_up;
  }

  pub apply_incremental_batch-IsBook :
      (batch : IncrementalBookBatch F) (b : L2OrderBook F)
      → IsBook b
      → IsBook (apply_incremental_batch batch b).0
  unfolding apply_incremental_batch
  apply_incremental_batch-IsBook batch b v =
      let named = if no_text b.symbol then record b { symbol = batch.symbol } else b in
      let good : IsBook named =
        if-holds IsBook (no_text b.symbol) (named-IsBook batch.symbol b v) v in
      let P = λ (x : L2OrderBook F × Option Refusal). IsBook x.0 in
      if-holds P (is_empty_batch batch.updates) v (
        if-holds P (no_text batch.symbol || batch.exchange_ts == 0 || batch.local_ts == 0) v (
          Option-holds P (batch_refusal batch named)
            (finish_batch-IsBook batch _ (
              apply_updates-IsBook batch.local_ts (updates_of batch.updates) _
                (enter_batch-IsBook (has_snapshot batch) named good)))
            (λ r. good)))

  pub load_levels-Valid :
      (tick_size : F) (previous : Option ℕ) (xs : List (DepthLevel F)) (l : TickLadder)
      → IsValid l
      → Accepted
          (λ m. IsValid m × (m.descending ≡ l.descending))
          (load_levels tick_size previous xs l)
  unfolding load_levels
  load_levels-Valid tick_size previous [] l v = (v, refl)
  load_levels-Valid tick_size previous (x ∷ xs) l v =
      let Q : TickLadder → Type 0 = λ m. IsValid m × (m.descending ≡ l.descending) in
      if-holds (Accepted Q) (bad_price x.price || x.quantity == 0) tt (
        Option-holds (Accepted Q) (positive_tick (to_price_tick x.price tick_size)) tt (λ tick.
          let m = set_level tick x.quantity l in
          if-holds (Accepted Q)
            (elim previous [ none ↦ true | some p ↦ better l.descending p tick ])
            (subst
              (λ d.
                Accepted (λ n. IsValid n × (n.descending ≡ d))
                  (load_levels tick_size (some tick) xs m))
              (descending-set_level tick x.quantity l)
              (load_levels-Valid tick_size (some tick) xs m
                (set_level-IsValid tick x.quantity l v)))
            tt))

  finish_snapshot-IsBook :
      (s : MarketDepthSnapshot F) (bids asks : TickLadder) (b : L2OrderBook F)
      → IsValid bids × (bids.descending ≡ true)
      → IsValid asks × (asks.descending ≡ false)
      → Accepted IsBook (finish_snapshot s bids asks b)
  unfolding finish_snapshot
  finish_snapshot-IsBook s bids asks b v w =
      if-holds (Accepted IsBook) (bids.count == 0 || asks.count == 0) tt (
        if-holds (Accepted IsBook) (crossed? bids asks) tt
          (record { bids_valid = v.0; asks_valid = w.0; bids_down = v.1; asks_up = w.1 }))

  pub apply_snapshot-IsBook :
      (s : MarketDepthSnapshot F) (b : L2OrderBook F) → Accepted IsBook (apply_snapshot s b)
  unfolding apply_snapshot new_ladder
  apply_snapshot-IsBook s b =
      Option-holds (Accepted IsBook) (snapshot_refusal s b)
        (Accepted-bind _ IsBook _ _
          (load_levels-Valid b.tick_size none s.bids (new_ladder true) (new_ladder-IsValid true))
          (λ bids v.
            Accepted-bind _ IsBook _ _
              (load_levels-Valid b.tick_size none s.asks (new_ladder false)
                (new_ladder-IsValid false))
              (λ asks w. finish_snapshot-IsBook s bids asks b v w)))
        (λ r. tt)
