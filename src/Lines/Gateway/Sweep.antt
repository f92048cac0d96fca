-- ===== src/Lines/Gateway/Sweep.antt =====
-- `sweep_timeouts` of src/lines/order_gateway.cpp and the counters of the gateway.
use toy_quant_v.Base.{
  ℕ, suc, ◌+◌, ◌≤◌, ◌<◌, ◌≡◌, refl, false, List, [], ◌∷◌, arith, ◌==◌, if◌then◌else◌, add64,
  u64_mod, Option-cases, inl, inr,
}
use toy_quant_v.Base.Maps.{lookup, insert}
use toy_quant_v.Exchange.Order.{Order, ExecutionReport}
use toy_quant_v.Exchange.Venue.{MatchingEngine, OrderQuery}
use toy_quant_v.Lines.Gateway.{
  OrderGateway, GatewayConfig, GatewaySummary, Tracked, time_out, query_once, retry_once, sweep_one,
  sweep_table, on_venue_reports, refresh_unacknowledged, take_reports,
}
use toy_quant_v.Lines.Gateway.Calls.{send_order, resend, sweep_timeouts}
use toy_quant_v.Lines.Gateway.Tally.{
  tally, unacked, untimed, unretried, Asked, AllAsked, Counted, on_venue_reports-Counted,
  tally-insert_new, tally-erase_le, insert-AllAsked, erase-AllAsked,
}

module _ {F : Type 0} where
  -- `Counted` in the middle of the walk, where the orders behind it hold `a`, `b` and `c`.
  abbrev Halfway : ℕ → ℕ → ℕ → ℕ → GatewaySummary → List (ℕ × Tracked F) → Type 0
  Halfway n a b c s m =
      (s.submissions ≡ n)
      × (s.duplicates_suppressed + s.acks + a + tally unacked m ≤ n)
      × (s.duplicates_suppressed + s.ack_timeouts + b + tally untimed m ≤ n)
      × (s.retries + c + tally unretried m ≤ s.ack_timeouts)
      × (s.timeouts_queried ≡ s.ack_timeouts)
      × (s.timeouts_working + s.timeouts_unknown ≡ s.timeouts_queried)

  sweep_one-Halfway :
      (config : GatewayConfig) (query : ℕ → OrderQuery) (now id n a b c : ℕ) (t : Tracked F)
      (s : GatewaySummary) (m : List (ℕ × Tracked F))
      → n < u64_mod
      → Asked t
      → Halfway n a b c s ((id, t) ∷ m)
      → let (t', s', due) = sweep_one config query now id t s in
        Asked t' × Halfway n (a + unacked t') (b + untimed t') (c + unretried t') s' m
  unfolding sweep_one time_out query_once retry_once tally add64
  sweep_one-Halfway config query now id n a b c t s m h k (k0, k1, k2, k3, k4, k5) = ground arith

  Halfway-cons :
      (n a b c : ℕ) (s : GatewaySummary) (id : ℕ) (t : Tracked F) (m : List (ℕ × Tracked F))
      → Halfway n (a + unacked t) (b + untimed t) (c + unretried t) s m
      → Halfway n a b c s ((id, t) ∷ m)
  unfolding tally
  Halfway-cons n a b c s id t m (k0, k1, k2, k3, k4, k5) = ground arith

  sweep_table-Halfway :
      (config : GatewayConfig) (query : ℕ → OrderQuery) (now n a b c : ℕ) (s : GatewaySummary)
      (m : List (ℕ × Tracked F))
      → n < u64_mod
      → AllAsked m
      → Halfway n a b c s m
      → let (m', s', due) = sweep_table config query now m s in AllAsked m' × Halfway n a b c s' m'
  unfolding sweep_table
  sweep_table-Halfway config query now n a b c s [] h k w = (tt, w)
  sweep_table-Halfway config query now n a b c s ((id, t) ∷ m) h k w =
      let (t', s', due) = sweep_one config query now id t s in
      let (k', w') = sweep_one-Halfway config query now id n a b c t s m h k.0 w in
      let (m', s'', later) = sweep_table config query now m s' in
      let (rest, w'') =
        sweep_table-Halfway config query now n (a + unacked t') (b + untimed t') (c + unretried t')
          s' m h k.1 w' in
      ((k', rest), Halfway-cons n a b c s'' id t' m' w'')

module _ {F V : Type 0} ⦃me : MatchingEngine F V⦄ where
  -- The counters of a gateway are right after `n` orders.
  abbrev pub Kept : ℕ → OrderGateway F V → Type 0
  Kept n g = Counted n g.summary g.in_flight

  resend-Kept :
      (n : ℕ) (os : List (Order F)) (g : OrderGateway F V)
      → n < u64_mod
      → Kept n g
      → Kept n (resend os g).0
  unfolding resend
  resend-Kept n [] g h k = k
  resend-Kept n (o ∷ os) g h k =
      let (v, rs) = me.send_order o g.venue in
      let g1 = on_venue_reports rs (record g { venue = v }) in
      let k1 = on_venue_reports-Counted n rs (record g { venue = v }) h k in
      let refused : GatewaySummary =
        if me.rejected_orders g1.venue == me.rejected_orders g.venue
        then g1.summary
        else record g1.summary { retry_rejections = add64 g1.summary.retry_rejections 1 } in
      resend-Kept n os (record g1 { summary = refused }) h (ground (arith, k1))

  pub sweep_timeouts-Kept :
      (n now : ℕ) (g : OrderGateway F V) → n < u64_mod → Kept n g → Kept n (sweep_timeouts now g).0
  unfolding sweep_timeouts refresh_unacknowledged
  sweep_timeouts-Kept n now g h (k0, k1, k2, k3, k4, k5, k6) =
      let query : ℕ → OrderQuery = λ id. me.query_order id g.venue in
      let (m, s, due) = sweep_table g.config query now g.in_flight g.summary in
      let (asked, w) =
        sweep_table-Halfway g.config query now n 0 0 0 g.summary g.in_flight h k6 (ground arith) in
      let after =
        resend-Kept n due (record g { in_flight = m; summary = s }) h (ground (arith, w, asked)) in
      ground (arith, after)

  pub take_reports-Kept :
      (n : ℕ) (g : OrderGateway F V) (answer : V × List (ExecutionReport F))
      → n < u64_mod
      → Kept n g
      → Kept n (take_reports g answer)
  take_reports-Kept n g (v, rs) h k = on_venue_reports-Counted n rs (record g { venue = v }) h k

  pub send_order-Kept :
      (n : ℕ) (o : Order F) (g : OrderGateway F V)
      → suc n < u64_mod
      → Kept n g
      → Kept (suc n) (send_order o g).0
  unfolding send_order refresh_unacknowledged add64
  send_order-Kept n o g h (k0, k1, k2, k3, k4, k5, k6) =
      let s = record g.summary { submissions = add64 g.summary.submissions 1 } in
      let t : Tracked F = record {
        order = o;
        submitted_ts = o.ts;
        remaining = o.remaining;
        answered = false;
        timed_out = false;
        queried = false;
        venue_working = false;
        retried = false;
      } in
      let entered = record g { summary = s; in_flight = insert o.id t g.in_flight } in
      let answer = me.send_order o g.venue in
      let g1 = take_reports entered answer in
      elim (Option-cases (lookup o.id g.in_flight)) [
        | inr (b, is) ↦ ground arith
        | inl new ↦
            let k' = take_reports-Kept (suc n) entered answer h (
              ground (
                arith,
                tally-insert_new unacked o.id t g.in_flight new,
                tally-insert_new untimed o.id t g.in_flight new,
                tally-insert_new unretried o.id t g.in_flight new,
                insert-AllAsked o.id t g.in_flight refl k6,
              )) in
            ground (
              arith,
              k',
              tally-erase_le unacked o.id g1.in_flight,
              tally-erase_le untimed o.id g1.in_flight,
              tally-erase_le unretried o.id g1.in_flight,
              erase-AllAsked o.id g1.in_flight,
            )
      ]
