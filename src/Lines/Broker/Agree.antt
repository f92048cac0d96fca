-- ===== src/Lines/Broker/Agree.antt =====
-- The statement of src/lines/paper_broker.cpp against the account of src/accounting/portfolio.cpp, which
-- src/app/pipeline.cpp feeds with what the broker forwards.
use toy_quant_v.Base.{
  ℕ, ◌+◌, ◌-◌, ◌/◌, ◌%◌, ◌≡◌, refl, sym, ap, ◌∙◌, subst, pos, ◌+ℤ◌, true, false, List, [], ◌∷◌,
  ◌++◌, arith, if◌then◌else◌, add64, u64_mod, Bytes, bytes, bytes_eq, All, Bool-cases, inl, inr,
}
use toy_quant_v.Common.Float.{Float}
use toy_quant_v.Exchange.Order.{ExecutionReport, OrderSide, executed_quantity}
use toy_quant_v.Accounting.Portfolio.{Portfolio, position_in, apply, signed}
use toy_quant_v.Accounting.Portfolio.Positions.{
  FitsInt64, traded_of, change_of, apply-position_in, +ℤ_assoc, add_zero,
}
use toy_quant_v.Lines.Broker.{
  PaperBroker, BrokerSummary, SymbolStatement, BrokerFaults, own_trade?, forward, record_execution,
  first_print, second_print, on_venue_report, on_venue_reports, statement_of,
}
use toy_quant_v.Lines.Broker.Statement.{record_execution-statement_of}

-- The two prints of a split come to the fill.
split-change :
    (side : OrderSide) (n : ℕ)
    → signed side (pos (n / 2)) +ℤ signed side (pos (n - n / 2)) ≡ signed side (pos n)
unfolding ◌+ℤ◌
split-change OrderSide.buy n = ground arith
split-change OrderSide.sell n = ground arith

module _ {F : Type 0} ⦃fl : Float F⦄ where
  -- The report callback of src/app/pipeline.cpp, as far as the account goes.
  unfoldable pub book : ExecutionReport F → Portfolio F → Portfolio F
  book r p = if bytes_eq r.owner (bytes "MarketMaker") then apply r p else p

  unfoldable pub book_all : List (ExecutionReport F) → Portfolio F → Portfolio F
  book_all [] p = p
  book_all (r ∷ rs) p = book_all rs (book r p)

  book_all-append :
      (rs told : List (ExecutionReport F)) (p : Portfolio F)
      → book_all (rs ++ told) p ≡ book_all told (book_all rs p)
  unfolding book_all
  book_all-append [] told p = refl
  book_all-append (r ∷ rs) told p = book_all-append rs told (book r p)

  book-idle : (r : ExecutionReport F) (p : Portfolio F) → own_trade? r ≡ false → book r p ≡ p
  unfolding book apply
  book-idle r p idle = ground (arith, idle)

  executed-FitsInt64 :
      (r : ExecutionReport F) → FitsInt64 r.quantity → FitsInt64 (executed_quantity r)
  unfolding executed_quantity
  executed-FitsInt64 r h = ground arith

  book-position_in :
      (r : ExecutionReport F) (p : Portfolio F) (symbol : Bytes)
      → own_trade? r ≡ true
      → FitsInt64 r.quantity
      → let x = position_in symbol p in
        let y = position_in symbol (book r p) in
        (y.quantity ≡ x.quantity +ℤ change_of symbol r)
        × (y.traded_quantity % u64_mod ≡ (x.traded_quantity + traded_of symbol r) % u64_mod)
  unfolding book
  book-position_in r p symbol own h =
      ground (arith, own, apply-position_in r p symbol (executed-FitsInt64 r h))

  -- The two prints move the same symbol the same way by as much as the fill.
  prints-change :
      (r : ExecutionReport F) (symbol : Bytes)
      → own_trade? r ≡ true
      → (own_trade? (first_print r) ≡ true)
        × (own_trade? (second_print r) ≡ true)
        × (change_of symbol (first_print r) +ℤ change_of symbol (second_print r)
            ≡ change_of symbol r)
        × (traded_of symbol (first_print r) + traded_of symbol (second_print r)
            ≡ traded_of symbol r)
  unfolding first_print second_print executed_quantity
  prints-change r symbol own =
      ground (arith, own, split-change r.side r.quantity, add_zero r.side (signed r.side (pos 0)))

  prints-FitsInt64 :
      (r : ExecutionReport F)
      → FitsInt64 r.quantity
      → FitsInt64 (first_print r).quantity × FitsInt64 (second_print r).quantity
  unfolding first_print second_print
  prints-FitsInt64 r h = ground arith

  prints-book :
      (r : ExecutionReport F) (p : Portfolio F) (symbol : Bytes)
      → own_trade? r ≡ true
      → FitsInt64 r.quantity
      → let x = position_in symbol (book (second_print r) (book (first_print r) p)) in
        let y = position_in symbol (book r p) in
        (x.quantity ≡ y.quantity) × (x.traded_quantity % u64_mod ≡ y.traded_quantity % u64_mod)
  prints-book r p symbol own h =
      let (own1, own2, change, traded) = prints-change r symbol own in
      let (fits1, fits2) = prints-FitsInt64 r h in
      let (q1, t1) = book-position_in (first_print r) p symbol own1 fits1 in
      let (q2, t2) = book-position_in (second_print r) (book (first_print r) p) symbol own2 fits2 in
      let (q, t) = book-position_in r p symbol own h in
      let start = (position_in symbol p).quantity in
      let c1 = change_of symbol (first_print r) in
      let c2 = change_of symbol (second_print r) in
      (
        q2 ∙ ap (λ z. z +ℤ c2) q1 ∙ +ℤ_assoc start c1 c2 ∙ ap (λ z. start +ℤ z) change ∙ sym q,
        omega (arith, t1, t2, t, traded),
      )

module _ {F V : Type 0} ⦃fl : Float F⦄ where
  -- The two accounts agree on a symbol.
  abbrev pub Agree : PaperBroker F V → Portfolio F → Bytes → Type 0
  Agree b p symbol =
      ((statement_of symbol b).net_quantity ≡ (position_in symbol p).quantity)
      × ((statement_of symbol b).filled_quantity % u64_mod
          ≡ (position_in symbol p).traded_quantity % u64_mod)

  statement_of-forward :
      (r : ExecutionReport F) (b : PaperBroker F V) (symbol : Bytes)
      → statement_of symbol (forward r b) ≡ statement_of symbol b
  unfolding statement_of forward
  statement_of-forward r b symbol = ground arith

  faults-record_execution :
      (r : ExecutionReport F) (b : PaperBroker F V)
      → ((record_execution r r.quantity r.fee b).faults ≡ b.faults)
        × ((record_execution r r.quantity r.fee b).summary ≡ b.summary)
  unfolding record_execution
  faults-record_execution r b = ground arith

  statement_of-summary :
      (s : BrokerSummary) (b : PaperBroker F V) (symbol : Bytes)
      → statement_of symbol (record b { summary = s }) ≡ statement_of symbol b
  unfolding statement_of
  statement_of-summary s b symbol = refl

  faults-forward : (r : ExecutionReport F) (b : PaperBroker F V) → (forward r b).faults ≡ b.faults
  unfolding forward
  faults-forward r b = ground arith

  -- The fill as one print or as two.
  told-Agree :
      (r : ExecutionReport F) (b b' : PaperBroker F V) (p : Portfolio F) (symbol : Bytes)
      → own_trade? r ≡ true
      → FitsInt64 r.quantity
      → Agree b p symbol
      → statement_of symbol b' ≡ statement_of symbol (record_execution r r.quantity r.fee b)
      → Agree b' (book r p) symbol
  told-Agree r b b' p symbol own h (q, t) same =
      let (q1, t1) = record_execution-statement_of r r.fee b symbol own h in
      let (q2, t2) = book-position_in r p symbol own h in
      let moved = ap (λ z. z +ℤ change_of symbol r) q in
      ground (arith, same, q1, t1, q2, t2, moved, t)

  on_venue_report-Agree :
      (r : ExecutionReport F) (b : PaperBroker F V) (p : Portfolio F) (symbol : Bytes)
      → b.faults.drop_every ≡ 0
      → FitsInt64 r.quantity
      → Agree b p symbol
      → let (b', told) = on_venue_report r b in
        (b'.faults ≡ b.faults) × Agree b' (book_all told p) symbol
  unfolding on_venue_report book_all
  on_venue_report-Agree r b p symbol keeps h agree = elim (Bool-cases (own_trade? r)) [
    | inr idle ↦
        let same = statement_of-forward r b symbol in
        ground (arith, idle, agree, same, book-idle r p idle, faults-forward r b)
    | inl own ↦
        let seen = record b {
          summary = record b.summary { fills_seen = add64 b.summary.fills_seen 1 };
        } in
        let written = record_execution r r.quantity r.fee seen in
        let kept = faults-record_execution r seen in
        let first = forward (first_print r) written in
        let told = forward (second_print r) first in
        let counted = record told.summary { fills_split = add64 told.summary.fills_split 1 } in
        let agree' : Agree seen p symbol =
          subst
            (λ (s : SymbolStatement F).
              (s.net_quantity ≡ (position_in symbol p).quantity)
              × (s.filled_quantity % u64_mod ≡ (position_in symbol p).traded_quantity % u64_mod))
            (sym (statement_of-summary seen.summary b symbol)) agree in
        let whole_told =
          told-Agree r seen (forward r written) p symbol own h agree'
            (statement_of-forward r written symbol) in
        let split_told =
          told-Agree r seen (record told { summary = counted }) p symbol own h agree'
            (statement_of-summary counted told symbol
              ∙ statement_of-forward (second_print r) first symbol
              ∙ statement_of-forward (first_print r) written symbol) in
        ground (
          arith,
          own,
          keeps,
          kept,
          faults-forward r written,
          faults-forward (first_print r) written,
          faults-forward (second_print r) first,
          prints-book r p symbol own h,
          whole_told,
          split_told,
        )
  ]

  -- A broker that drops no fill, whatever fills it splits, and the account that is fed with the reports
  -- that it forwards stay in agreement on a symbol: the signed quantity that the statement holds is the
  -- account's position, and the filled quantities are equal in 64 bits, for venue reports of fewer than
  -- 2^63 units each.
  pub on_venue_reports-Agree :
      (rs : List (ExecutionReport F)) (b : PaperBroker F V) (p : Portfolio F) (symbol : Bytes)
      → b.faults.drop_every ≡ 0
      → All (λ r. FitsInt64 r.quantity) rs
      → Agree b p symbol
      → let (b', told) = on_venue_reports rs b in Agree b' (book_all told p) symbol
  unfolding on_venue_reports book_all
  on_venue_reports-Agree [] b p symbol keeps h agree = agree
  on_venue_reports-Agree (r ∷ rs) b p symbol keeps (h, hs) agree =
      let (b1, told) = on_venue_report r b in
      let (same, agree1) = on_venue_report-Agree r b p symbol keeps h agree in
      let (b2, later) = on_venue_reports rs b1 in
      let agree2 =
        on_venue_reports-Agree rs b1 (book_all told p) symbol
          (ap (λ (f : BrokerFaults). f.drop_every) same ∙ keeps) hs agree1 in
      subst (λ q. Agree b2 q symbol) (sym (book_all-append told later p)) agree2
