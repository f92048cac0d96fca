-- ===== src/Lines/Broker/Orders.antt =====
-- Where the orders of src/lines/paper_broker.cpp go: what the venue gets, and in which order.
use mathlib.Core.List.Sublist
use mathlib.Core.List.{Sublist}
use toy_quant_v.Base.{
  ℕ, ◌+◌, ◌%◌, ◌≡◌, refl, sym, subst, ap, ◌∙◌, Bool, true, false, List, [], ◌∷◌, ◌++◌, arith, add64,
  u64_mod, length, append_assoc, append-nil, inl, inr, ◌==◌, ◌||◌, ltb, not, if◌then◌else◌,
}
use toy_quant_v.Common.Float.{Float}
use toy_quant_v.Exchange.Order.{Order, ExecutionReport}
use toy_quant_v.Exchange.Venue.{MatchingEngine}
use toy_quant_v.Lines.Gateway.Transparent.{
  Call, send, cancel, bbo, top, trade, venue_call, venue_calls,
}
use toy_quant_v.Lines.Broker.{PaperBroker, BrokerFaults, on_venue_reports, new_broker, falls_on}
use toy_quant_v.Lines.Broker.Calls.{
  broker_venue, send_order, cancel_order, process_bbo, process_l2_top, process_market_trade, accept,
  start_outage, hold, release_held,
}
use toy_quant_v.Lines.Broker.Flow.{
  Flow, Kept, Kept-refused, Kept-accepted, Kept-held, Kept-released, Kept-cancelled,
}
use toy_quant_v.Lines.Broker.Log.{
  logged, flow, flow-on_venue_reports, flow-accept, flow-release_held, flow-start_outage,
  flow-cancel_order,
}
use toy_quant_v.Lines.Broker.Counts.{Placed, venue_calls-Placed}

if-cases :
    {A : Type 0} (P : A → Type 0) (t : Bool) (x y : A)
    → (t ≡ true → P x)
    → (t ≡ false → P y)
    → P (if t then x else y)
if-cases P true x y f g = f refl
if-cases P false x y f g = g refl

module _ {F : Type 0} where
  -- The orders that the calls submit.
  abbrev pub submitted : List (Call F) → List (Order F)
  submitted [] = []
  submitted (send o ∷ cs) = o ∷ submitted cs
  submitted (cancel id ∷ cs) = submitted cs
  submitted (bbo q ∷ cs) = submitted cs
  submitted (top q ∷ cs) = submitted cs
  submitted (trade t ∷ cs) = submitted cs

module _ {F V : Type 0} ⦃fl : Float F⦄ (me : MatchingEngine F V) where
  accept-Kept :
      (o : Order F) (os : List (Order F)) (b : PaperBroker F (V × List (Order F))) (w : Flow F)
      → flow b ≡ record w { count = add64 w.count 1 }
      → Kept os w
      → w.held ≡ []
      → Kept (os ++ o ∷ []) (flow (accept ⦃me = logged me⦄ o b).0)
  accept-Kept o os b w same k none' =
      let taken =
        λ (v : Flow F). record v { log = v.log ++ o ∷ []; accepted = add64 v.accepted 1 } in
      subst (Kept (os ++ o ∷ [])) (sym (flow-accept me o b ∙ ap taken same))
        (Kept-accepted o os w k none')

  release_held-flow :
      (b : PaperBroker F (V × List (Order F))) (w : Flow F)
      → flow b ≡ record w { count = add64 w.count 1 }
      → flow (release_held ⦃me = logged me⦄ (record b { outage_active = false })).0 ≡ record w {
        log = w.log ++ w.held;
        held = [];
        outage = false;
        released = add64 w.released (length w.held);
        count = add64 w.count 1;
      }
  release_held-flow b w same =
      let freed = λ (v : Flow F). record v {
        log = v.log ++ v.held;
        held = [];
        outage = false;
        released = add64 v.released (length v.held);
      } in
      flow-release_held me (record b { outage_active = false }) ∙ ap freed same

  send_order-Kept :
      (o : Order F) (os : List (Order F)) (b : PaperBroker F (V × List (Order F)))
      → Kept os (flow b)
      → Kept (os ++ o ∷ []) (flow (send_order ⦃me = logged me⦄ o b).0)
  unfolding send_order hold
  send_order-Kept o os b k =
      let n = add64 b.summary.orders_submitted 1 in
      let counted = record b { summary = record b.summary { orders_submitted = n } } in
      let b1 = start_outage ⦃me = logged me⦄ counted in
      let (same, before) = flow-start_outage me counted in
      let w : Flow F = record (flow b) { outage = b1.outage_active } in
      let started : Kept os w = record {
        in_order = k.in_order;
        none_held = λ h. k.none_held (before h);
        given = k.given;
        counted = k.counted;
      } in
      let b2 = (release_held ⦃me = logged me⦄ (record b1 { outage_active = false })).0 in
      let After = λ (x : PaperBroker F (V × List (Order F)) × List (ExecutionReport F)).
        Kept (os ++ o ∷ []) (flow x.0) in
      let w2 : Flow F = record w {
        log = w.log ++ w.held;
        held = [];
        outage = false;
        released = add64 w.released (length w.held);
      } in
      let hold_one = λ (v : Flow F). record v { held = v.held ++ o ∷ [] } in
      if-cases After (falls_on b.faults.reject_every n) _ _ (λ _. Kept-refused o os (flow b) k)
        (λ _.
          if-cases After (not b1.outage_active) _ _
            (λ up. accept-Kept o os b1 w same started (started.none_held (ground (arith, up))))
            (λ down.
              if-cases After
                (b1.faults.outage_holds == 0 || ltb b1.held_since_outage b1.faults.outage_holds) _ _
                (λ _.
                  subst (Kept (os ++ o ∷ [])) (sym (ap hold_one same))
                    (Kept-held o os w started (ground (arith, down))))
                (λ _.
                  accept-Kept o os b2 w2 (release_held-flow b1 w same) (Kept-released os w started)
                    refl)))

  cancel_order-Kept :
      (id : ℕ) (os : List (Order F)) (b : PaperBroker F (V × List (Order F)))
      → Kept os (flow b)
      → Kept os (flow (cancel_order ⦃me = logged me⦄ id b).0)
  cancel_order-Kept id os b k = elim (flow-cancel_order me id b) [
    | inl same ↦ subst (Kept os) (sym same) k
    | inr dropped ↦ subst (Kept os) (sym dropped) (Kept-cancelled id os (flow b) k)
  ]

  told-Kept :
      (rs : List (ExecutionReport F)) (os : List (Order F)) (b : PaperBroker F (V × List (Order F)))
      → Kept os (flow b)
      → Kept (os ++ []) (flow (on_venue_reports rs b).0)
  told-Kept rs os b k =
      subst (λ xs. Kept xs (flow (on_venue_reports rs b).0)) (sym (append-nil os))
        (subst (Kept os) (sym (flow-on_venue_reports rs b)) k)

  venue_call-Kept :
      (c : Call F) (os : List (Order F)) (b : PaperBroker F (V × List (Order F)))
      → Kept os (flow b)
      → Kept
          (os ++ submitted (c ∷ []))
          (flow (venue_call ⦃me = broker_venue ⦃me = logged me⦄⦄ c b).0)
  unfolding process_bbo process_l2_top process_market_trade
  venue_call-Kept (send o) os b k = send_order-Kept o os b k
  venue_call-Kept (cancel id) os b k =
      subst (λ xs. Kept xs (flow (cancel_order ⦃me = logged me⦄ id b).0)) (sym (append-nil os))
        (cancel_order-Kept id os b k)
  venue_call-Kept (bbo q) os b k =
      let (v, rs) = (logged me).process_bbo q b.venue in told-Kept rs os (record b { venue = v }) k
  venue_call-Kept (top q) os b k =
      let (v, rs) = (logged me).process_l2_top q b.venue in
      told-Kept rs os (record b { venue = v }) k
  venue_call-Kept (trade t) os b k =
      let (v, rs) = (logged me).process_market_trade t b.venue in
      told-Kept rs os (record b { venue = v }) k

  submitted-cons :
      (c : Call F) (cs : List (Call F)) → submitted (c ∷ []) ++ submitted cs ≡ submitted (c ∷ cs)
  submitted-cons (send o) cs = refl
  submitted-cons (cancel id) cs = refl
  submitted-cons (bbo q) cs = refl
  submitted-cons (top q) cs = refl
  submitted-cons (trade t) cs = refl

  venue_calls-Kept :
      (cs : List (Call F)) (os : List (Order F)) (b : PaperBroker F (V × List (Order F)))
      → Kept os (flow b)
      → Kept (os ++ submitted cs) (flow (venue_calls ⦃me = broker_venue ⦃me = logged me⦄⦄ cs b).0)
  venue_calls-Kept [] os b k = subst (λ xs. Kept xs (flow b)) (sym (append-nil os)) k
  venue_calls-Kept (c ∷ cs) os b k =
      let b1 = (venue_call ⦃me = broker_venue ⦃me = logged me⦄⦄ c b).0 in
      let b2 = (venue_calls ⦃me = broker_venue ⦃me = logged me⦄⦄ cs b1).0 in
      subst (λ xs. Kept xs (flow b2))
        (append_assoc os (submitted (c ∷ [])) (submitted cs)
          ∙ ap (λ xs. os ++ xs) (submitted-cons c cs))
        (venue_calls-Kept cs (os ++ submitted (c ∷ [])) b1 (venue_call-Kept c os b k))

  -- After any calls of a broker with any faults over any venue, the orders that the venue was given, in the
  -- order it was given them and then those still held, are some of the orders submitted, in the order of
  -- their submission. Those submitted are as many as those refused, given to the venue at once, given to it
  -- after an outage, cancelled while held and still held, by the broker's counts and in 64 bits; and the
  -- venue was given as many as the two counts say, and the count of submissions is right, in 64 bits.
  pub broker-Placed :
      (faults : BrokerFaults) (v : V) (cs : List (Call F))
      → let b =
          (venue_calls ⦃me = broker_venue ⦃me = logged me⦄⦄ cs (new_broker faults (v, []))).0 in
        Sublist (b.venue.1 ++ b.held) (submitted cs)
        × Placed b
        × (length b.venue.1 % u64_mod ≡ (b.accepted_orders + b.summary.orders_released) % u64_mod)
        × (b.summary.orders_submitted % u64_mod ≡ length (submitted cs) % u64_mod)
  unfolding new_broker
  broker-Placed faults v cs =
      let new = new_broker faults (v, []) in
      let k = venue_calls-Kept cs [] new (record {
        in_order = Sublist.refl [];
        none_held = λ _. refl;
        given = refl;
        counted = refl;
      }) in
      (k.in_order, venue_calls-Placed ⦃me = logged me⦄ cs new refl, k.given, k.counted)
