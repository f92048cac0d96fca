-- ===== src/Accounting/Portfolio/Flows.antt =====
-- The interval flows of src/accounting/portfolio.cpp against the flows of the positions one by one.
use toy_quant_v.Base.{
  ◌≡◌, refl, pos, ◌==ℤ◌, ◌||◌, List, [], ◌∷◌, none, some, arith, if◌then◌else◌, Bytes, Option-cases,
  inl, inr,
}
use toy_quant_v.Common.Float.{Float}
use toy_quant_v.Accounting.Portfolio.{Portfolio, PortfolioPosition}
use toy_quant_v.Accounting.Portfolio.Value.{
  PriceMap, flow_of, credit, accrue_interval_flow, accrue_positions, accrue_interval_flows,
}

module _ {F : Type 0} ⦃fl : Float F⦄ where
  open fl use {f_zero, f_add, f_eq}

  -- The flows that are not zero, each of the account as it is before any of them.
  unfoldable pub flows_of :
      Portfolio F → PriceMap F → PriceMap F → List (Bytes × PortfolioPosition F) → List F
  flows_of p rates marks [] = []
  flows_of p rates marks ((symbol, x) ∷ xs) =
      let later = flows_of p rates marks xs in
      elim (rates symbol) [
        | none ↦ later
        | some rate ↦ elim (marks symbol) [
          | none ↦ later
          | some mark ↦
              let flow = flow_of symbol rate mark p in
              if x.quantity ==ℤ pos 0 || f_eq flow f_zero then later else flow ∷ later
        ]
      ]

  unfoldable pub credit_all : List F → Portfolio F → Portfolio F
  credit_all [] p = p
  credit_all (flow ∷ flows) p = credit_all flows (credit flow p)

  flow_of-credit :
      (symbol : Bytes) (rate mark flow : F) (p : Portfolio F)
      → flow_of symbol rate mark (credit flow p) ≡ flow_of symbol rate mark p
  unfolding flow_of
  flow_of-credit symbol rate mark flow p = refl

  flows_of-credit :
      (rates marks : PriceMap F) (xs : List (Bytes × PortfolioPosition F)) (flow : F)
      (p : Portfolio F)
      → flows_of (credit flow p) rates marks xs ≡ flows_of p rates marks xs
  unfolding flows_of flow_of
  flows_of-credit rates marks [] flow p = refl
  flows_of-credit rates marks (x ∷ xs) flow p =
      ground (arith, flows_of-credit rates marks xs flow p)

  accrue_positions-credit_all :
      (rates marks : PriceMap F) (xs : List (Bytes × PortfolioPosition F)) (p : Portfolio F)
      (total : F)
      → (accrue_positions rates marks xs (p, total)).0 ≡ credit_all (flows_of p rates marks xs) p
  unfolding accrue_positions flows_of credit_all accrue_interval_flow
  accrue_positions-credit_all rates marks [] p total = refl
  accrue_positions-credit_all rates marks ((symbol, x) ∷ xs) p total =
      elim (Option-cases (rates symbol)) [
        | inl unrated ↦ ground (arith, accrue_positions-credit_all rates marks xs p total)
        | inr (rate, is) ↦ elim (Option-cases (marks symbol)) [
          | inl unmarked ↦ ground (arith, accrue_positions-credit_all rates marks xs p total)
          | inr (mark, is') ↦
              let flow = flow_of symbol rate mark p in
              ground (
                arith,
                accrue_positions-credit_all rates marks xs p total,
                accrue_positions-credit_all rates marks xs p (f_add total f_zero),
                accrue_positions-credit_all rates marks xs (credit flow p) (f_add total flow),
                flows_of-credit rates marks xs flow p,
              )
        ]
      ]

  -- One interval over the whole book credits the account with each position's flow once, in the order of
  -- the book, where it is not zero: every flow is that of the account before the interval, so none depends
  -- on another.
  pub accrue_interval_flows-credit_all :
      (rates marks : PriceMap F) (p : Portfolio F)
      → (accrue_interval_flows rates marks p).0 ≡ credit_all (flows_of p rates marks p.positions) p
  unfolding accrue_interval_flows
  accrue_interval_flows-credit_all rates marks p =
      accrue_positions-credit_all rates marks p.positions p f_zero
