-- ===== src/Lines/Gateway/Tally.antt =====
-- What the table and the counters of `OrderGateway` (src/lines/order_gateway.cpp) keep of each other.
use toy_quant_v.Base.{
  ℕ, ◌+◌, ◌≤◌, ◌<◌, ◌≡◌, true, not, ◌&&◌, List, [], ◌∷◌, none, some, arith, if◌then◌else◌, add64,
  u64_mod, Option-cases, inl, inr,
}
use toy_quant_v.Base.Maps.{lookup, insert, erase}
use toy_quant_v.Exchange.Order.{ExecutionReport}
use toy_quant_v.Lines.Gateway.{
  OrderGateway, GatewaySummary, Tracked, on_venue_report, on_venue_reports, refresh_unacknowledged,
  remaining_after,
}

module _ {F : Type 0} where
  unfoldable pub tally : (Tracked F → ℕ) → List (ℕ × Tracked F) → ℕ
  tally p [] = 0
  tally p ((id, t) ∷ m) = p t + tally p m

  tally-insert :
      (p : Tracked F → ℕ) (id : ℕ) (a b : Tracked F) (m : List (ℕ × Tracked F))
      → lookup id m ≡ some a
      → tally p (insert id b m) + p a ≡ tally p m + p b
  unfolding tally insert lookup
  tally-insert p id a b [] h = ground arith
  tally-insert p id a b ((j, t) ∷ m) h = ground (arith, tally-insert p id a b m)

  pub tally-insert_new :
      (p : Tracked F → ℕ) (id : ℕ) (b : Tracked F) (m : List (ℕ × Tracked F))
      → lookup id m ≡ none
      → tally p (insert id b m) ≡ tally p m + p b
  unfolding tally insert lookup
  tally-insert_new p id b [] h = ground arith
  tally-insert_new p id b ((j, t) ∷ m) h = ground (arith, tally-insert_new p id b m)

  pub tally-erase_le :
      (p : Tracked F → ℕ) (id : ℕ) (m : List (ℕ × Tracked F)) → tally p (erase id m) ≤ tally p m
  unfolding tally erase
  tally-erase_le p id [] = ground arith
  tally-erase_le p id ((j, t) ∷ m) = ground (arith, tally-erase_le p id m)

  tally-erase :
      (p : Tracked F → ℕ) (id : ℕ) (a : Tracked F) (m : List (ℕ × Tracked F))
      → lookup id m ≡ some a
      → tally p (erase id m) + p a ≤ tally p m
  unfolding tally erase lookup
  tally-erase p id a [] h = ground arith
  tally-erase p id a ((j, t) ∷ m) h = ground (arith, tally-erase p id a m, tally-erase_le p id m)

  -- An order that may still be acknowledged, time out, or be sent again.
  abbrev pub unacked : Tracked F → ℕ
  unacked t = if t.answered then 0 else 1

  abbrev pub untimed : Tracked F → ℕ
  untimed t = if t.timed_out then 0 else 1

  abbrev pub unretried : Tracked F → ℕ
  unretried t = if t.timed_out && not t.retried then 1 else 0

  -- An order that has timed out was asked for.
  abbrev pub Asked : Tracked F → Type 0
  Asked t = t.queried ≡ t.timed_out

  abbrev pub AllAsked : List (ℕ × Tracked F) → Type 0
  AllAsked [] = Unit
  AllAsked ((id, t) ∷ m) = Asked t × AllAsked m

  lookup-AllAsked :
      (id : ℕ) (a : Tracked F) (m : List (ℕ × Tracked F))
      → AllAsked m
      → lookup id m ≡ some a
      → Asked a
  unfolding lookup
  lookup-AllAsked id a [] h k = ground arith
  lookup-AllAsked id a ((j, t) ∷ m) h k = ground (arith, lookup-AllAsked id a m h.1)

  pub insert-AllAsked :
      (id : ℕ) (a : Tracked F) (m : List (ℕ × Tracked F))
      → Asked a
      → AllAsked m
      → AllAsked (insert id a m)
  unfolding insert
  insert-AllAsked id a [] h k = (h, tt)
  insert-AllAsked id a ((j, t) ∷ m) h k = ground (arith, insert-AllAsked id a m h k.1)

  pub erase-AllAsked : (id : ℕ) (m : List (ℕ × Tracked F)) → AllAsked m → AllAsked (erase id m)
  unfolding erase
  erase-AllAsked id [] k = tt
  erase-AllAsked id ((j, t) ∷ m) k = ground (arith, erase-AllAsked id m k.1)

  -- The counters against the table, after `n` orders.
  abbrev pub Counted : ℕ → GatewaySummary → List (ℕ × Tracked F) → Type 0
  Counted n s m =
      (s.submissions ≡ n)
      × (s.duplicates_suppressed + s.acks + tally unacked m ≤ n)
      × (s.duplicates_suppressed + s.ack_timeouts + tally untimed m ≤ n)
      × (s.retries + tally unretried m ≤ s.ack_timeouts)
      × (s.timeouts_queried ≡ s.ack_timeouts)
      × (s.timeouts_working + s.timeouts_unknown ≡ s.timeouts_queried)
      × AllAsked m

  on_venue_report-Counted :
      {V : Type 0} (n : ℕ) (r : ExecutionReport F) (g : OrderGateway F V)
      → n < u64_mod
      → Counted n g.summary g.in_flight
      → Counted n (on_venue_report r g).summary (on_venue_report r g).in_flight
  unfolding on_venue_report refresh_unacknowledged add64
  on_venue_report-Counted n r g h (k0, k1, k2, k3, k4, k5, k6) =
      elim (Option-cases (lookup r.order_id g.in_flight)) [
        | inl gone ↦ ground arith
        | inr (t, is) ↦
            let t' = record t { answered = true; remaining = remaining_after r t.remaining } in
            ground (
              arith,
              tally-insert unacked r.order_id t t' g.in_flight is,
              tally-insert untimed r.order_id t t' g.in_flight is,
              tally-insert unretried r.order_id t t' g.in_flight is,
              tally-erase unacked r.order_id t g.in_flight is,
              tally-erase_le untimed r.order_id g.in_flight,
              tally-erase_le unretried r.order_id g.in_flight,
              insert-AllAsked r.order_id t' g.in_flight
                  (lookup-AllAsked r.order_id t g.in_flight k6 is) k6,
              erase-AllAsked r.order_id g.in_flight k6,
            )
      ]

  pub on_venue_reports-Counted :
      {V : Type 0} (n : ℕ) (rs : List (ExecutionReport F)) (g : OrderGateway F V)
      → n < u64_mod
      → Counted n g.summary g.in_flight
      → Counted n (on_venue_reports rs g).summary (on_venue_reports rs g).in_flight
  unfolding on_venue_reports
  on_venue_reports-Counted n [] g h k = k
  on_venue_reports-Counted n (r ∷ rs) g h k =
      on_venue_reports-Counted n rs (on_venue_report r g) h (on_venue_report-Counted n r g h k)
