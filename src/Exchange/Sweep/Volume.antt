-- ===== src/Exchange/Sweep/Volume.antt =====
-- What the matching loops of `match_side` do to quantities: what the reports say was traded is what
-- the resting orders lost and what the incoming order no longer has.
use toy_quant_v.Base.{
  ℕ, ℤ, ◌+◌, ◌-◌, ◌%◌, ◌≤◌, min, Bool, true, false, ◌⊎◌, inr, ◌≡◌, refl, ap, List, [], ◌∷◌, arith,
  if◌then◌else◌, bytes_eq, u64_mod, add64,
}
use toy_quant_v.Common.Float.{Float}
use toy_quant_v.Common.Fees.{FeeSchedule}
use toy_quant_v.Exchange.Order.{Order, LiquidityRole, CancelReason, ExecutionReport}
use toy_quant_v.Exchange.Book.{PriceLevel, Levels}
use toy_quant_v.Exchange.Sweep.{
  Sweep, consume_queue, fill_one, fill_orders, match_levels, prevent_self_trade, pop_order,
  state_report, trade_report, market_owner, maker?,
}

abbrev pub taker? : LiquidityRole → Bool
taker? LiquidityRole.taker = true
taker? LiquidityRole.maker = false
taker? LiquidityRole.unknown = false

abbrev pub self_trade? : CancelReason → Bool
self_trade? CancelReason.self_trade = true
self_trade? CancelReason.none = false
self_trade? CancelReason.user = false
self_trade? CancelReason.venue = false
self_trade? CancelReason.ioc = false
self_trade? CancelReason.fok = false
self_trade? CancelReason.timeout = false

module _ {F : Type 0} where
  -- The quantity that the reports of `role` say was traded.
  unfoldable pub volume : (LiquidityRole → Bool) → List (ExecutionReport F) → ℕ
  volume role [] = 0
  volume role (r ∷ rs) = volume role rs + (if role r.liquidity_role then r.quantity else 0)

  -- The quantity that the reports say self-trade prevention took off.
  unfoldable pub prevented : List (ExecutionReport F) → ℕ
  prevented [] = 0
  prevented (r ∷ rs) = prevented rs + (if self_trade? r.cancel_reason then r.quantity else 0)

  -- The quantity that rests in a list of orders, and in a side of the book.
  unfoldable pub resting : List (Order F) → ℕ
  resting [] = 0
  resting (o ∷ os) = o.remaining + resting os

  unfoldable pub depth : Levels F → ℕ
  depth [] = 0
  depth ((t, l) ∷ ls) = resting l.orders + depth ls

  -- The displayed size that still stands before the orders of a side.
  unfoldable pub queued : Levels F → ℕ
  queued [] = 0
  queued ((t, l) ∷ ls) = l.external_queue_ahead + queued ls

module _ {F : Type 0} ⦃fl : Float F⦄ (fs : FeeSchedule F) (tick_size : F) (inc : Order F) where
  -- The volumes after a sweep against those before it.
  pub record Balanced (s t : Sweep F) (lost : ℕ) : Type 0 where
    pub taken : volume taker? t.reports ≡ volume taker? s.reports + lost
    pub made : volume maker? t.reports ≡ volume maker? s.reports + lost
    pub left : t.qty + lost + prevented t.reports ≡ s.qty + prevented s.reports

  pub fill_one-Balanced :
      (best : ℤ) (o : Order F) (traded : ℕ) (s : Sweep F)
      → traded ≤ s.qty
      → Balanced s (fill_one fs tick_size inc best o traded s) traded
  unfolding fill_one volume prevented state_report trade_report
  fill_one-Balanced best o traded s h = ground arith

  -- What a sweep of orders, or of levels, does: `before` and `after` are what rests there.
  pub record Sweeps (before after : ℕ) (s t : Sweep F) : Type 0 where
    pub fewer : after ≤ before
    pub balance : Balanced s t (before - after)

  stop-Sweeps : (n : ℕ) (s : Sweep F) → Sweeps n n s s
  stop-Sweeps n s = ground arith

  prevent-Sweeps : (n : ℕ) (s : Sweep F) → Sweeps n n s (prevent_self_trade inc s)
  unfolding prevent_self_trade volume prevented state_report
  prevent-Sweeps n s = ground arith

  fill-Sweeps :
      (best : ℤ) (o : Order F) (s : Sweep F) (n : ℕ)
      → let traded = min s.qty o.remaining in
        Sweeps
          (o.remaining + n)
          (o.remaining - traded + n)
          s
          (fill_one fs tick_size inc best o traded s)
  fill-Sweeps best o s n =
      let b = fill_one-Balanced best o (min s.qty o.remaining) s (omega arith) in ground arith

  Sweeps-trans : (a b c : ℕ) (s t u : Sweep F) → Sweeps a b s t → Sweeps b c t u → Sweeps a c s u
  Sweeps-trans a b c s t u h k = ground arith

  pub fill_orders-Sweeps :
      (best : ℤ) (os : List (Order F)) (s : Sweep F)
      → let (os', t) = fill_orders fs tick_size inc best os s in
        Sweeps (resting os) (resting os') s t
  unfolding fill_orders resting
  fill_orders-Sweeps best [] s = stop-Sweeps 0 s
  fill_orders-Sweeps best (o ∷ os) s =
      let done = fill_one fs tick_size inc best o (min s.qty o.remaining) s in
      ground (
        arith,
        stop-Sweeps (o.remaining + resting os) s,
        prevent-Sweeps (o.remaining + resting os) s,
        fill-Sweeps best o s (resting os),
        fill_orders-Sweeps best os (pop_order o.id done),
      )

  -- A level that keeps an order has used the incoming quantity up: the loops stop there.
  pub fill_orders-stops :
      (best : ℤ) (os : List (Order F)) (s : Sweep F)
      → let (os', t) = fill_orders fs tick_size inc best os s in (t.qty ≡ 0) ⊎ (os' ≡ [])
  unfolding fill_orders fill_one prevent_self_trade
  fill_orders-stops best [] s = inr refl
  fill_orders-stops best (o ∷ os) s =
      let done = fill_one fs tick_size inc best o (min s.qty o.remaining) s in
      ground (arith, fill_orders-stops best os (pop_order o.id done))

  abbrev pub from_venue : Bool
  from_venue = bytes_eq inc.owner market_owner

  -- A public print, or an order that calls itself one, consumes the displayed size.
  abbrev pub consumption : ℕ → ℕ → ℕ
  consumption before after = if from_venue then before - after else 0

  record Consumes (level level' : PriceLevel F) (s t : Sweep F) : Type 0 where
    orders_same : level'.orders ≡ level.orders
    reports_same : t.reports ≡ s.reports
    fewer : level'.external_queue_ahead ≤ level.external_queue_ahead
    left : t.qty + consumption level.external_queue_ahead level'.external_queue_ahead ≡ s.qty
    all : from_venue ≡ true → (t.qty ≡ 0) ⊎ (level'.external_queue_ahead ≡ 0)
    kept : from_venue ≡ false → level' ≡ level
    counted :
        t.queue_ahead_consumed % u64_mod
        ≡ (s.queue_ahead_consumed
            + consumption level.external_queue_ahead level'.external_queue_ahead)
          % u64_mod
    side_counted :
        t.side_consumed % u64_mod
        ≡ (s.side_consumed + consumption level.external_queue_ahead level'.external_queue_ahead)
          % u64_mod

  consume_queue-Consumes :
      (level : PriceLevel F) (s : Sweep F)
      → let (level', t) = consume_queue inc level s in Consumes level level' s t
  unfolding consume_queue add64
  consume_queue-Consumes level s = ground arith

  Consumes-volumes :
      (level level' : PriceLevel F) (s t : Sweep F)
      → Consumes level level' s t
      → (volume taker? t.reports ≡ volume taker? s.reports)
        × (volume maker? t.reports ≡ volume maker? s.reports)
        × (prevented t.reports ≡ prevented s.reports)
        × (resting level'.orders ≡ resting level.orders)
  Consumes-volumes level level' s t c = (
    ap (volume taker?) c.reports_same,
    ap (volume maker?) c.reports_same,
    ap prevented c.reports_same,
    ap resting c.orders_same,
  )

  -- A sweep of the levels: `lost` is traded, and `consumed` of the displayed size is taken.
  pub record Matches (lost consumed : ℕ) (s t : Sweep F) : Type 0 where
    pub taken : volume taker? t.reports ≡ volume taker? s.reports + lost
    pub made : volume maker? t.reports ≡ volume maker? s.reports + lost
    pub left : t.qty + lost + consumed + prevented t.reports ≡ s.qty + prevented s.reports
    pub counted : t.queue_ahead_consumed % u64_mod ≡ (s.queue_ahead_consumed + consumed) % u64_mod
    pub side_counted : t.side_consumed % u64_mod ≡ (s.side_consumed + consumed) % u64_mod

  fill_orders-counters :
      (best : ℤ) (os : List (Order F)) (s : Sweep F)
      → let t = (fill_orders fs tick_size inc best os s).1 in
        (t.queue_ahead_consumed ≡ s.queue_ahead_consumed) × (t.side_consumed ≡ s.side_consumed)
  unfolding fill_orders fill_one prevent_self_trade
  fill_orders-counters best [] s = (refl, refl)
  fill_orders-counters best (o ∷ os) s =
      let done = fill_one fs tick_size inc best o (min s.qty o.remaining) s in
      ground (arith, fill_orders-counters best os (pop_order o.id done))

  pub record MatchesLevels (ls ls' : Levels F) (s t : Sweep F) : Type 0 where
    pub shallower : depth ls' ≤ depth ls
    pub nearer : queued ls' ≤ queued ls
    pub balance : Matches (depth ls - depth ls') (consumption (queued ls) (queued ls')) s t

  -- A sweep conserves quantity, whatever the book and the order. The taker's trades that it reports add
  -- up to the quantity that the resting orders lost, and so do the makers' trades; the quantity that the
  -- incoming order gives up is this, the external queue that it consumed and what its report of a
  -- prevented self-trade cancels; and the two counters of consumed queue, in all and on the side of the
  -- book, grow by the queue that it consumed, modulo 2^64.
  pub match_levels-Matches :
      (tick : ℤ) (ls : Levels F) (s : Sweep F)
      → let (ls', t) = match_levels fs tick_size inc tick ls s in MatchesLevels ls ls' s t
  unfolding match_levels depth queued resting
  match_levels-Matches tick [] s = ground arith
  match_levels-Matches tick ((best, level) ∷ ls) s =
      let (level', s') = consume_queue inc level s in
      let (os, s'') = fill_orders fs tick_size inc best level'.orders s' in
      ground (
        arith,
        consume_queue-Consumes level s,
        Consumes-volumes level level' s s' (consume_queue-Consumes level s),
        fill_orders-Sweeps best level'.orders s',
        fill_orders-stops best level'.orders s',
        fill_orders-counters best level'.orders s',
        match_levels-Matches tick ls s'',
      )
