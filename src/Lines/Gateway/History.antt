-- ===== src/Lines/Gateway/History.antt =====
-- The gateways that the calls of src/lines/order_gateway.cpp lead to, in any order and over any venue.
use toy_quant_v.Base.{ℕ, suc}
use toy_quant_v.Common.Types.{BboQuote, MarketTrade}
use toy_quant_v.Exchange.Order.{Order}
use toy_quant_v.Exchange.Venue.{MatchingEngine}
use toy_quant_v.Lines.Gateway.{OrderGateway, GatewayConfig, new_gateway}
use toy_quant_v.Lines.Gateway.Calls.{
  send_order, cancel_order, process_bbo, process_l2_top, process_market_trade,
}

-- With how many orders were sent to it.
pub data Run {F V : Type 0} ⦃me : MatchingEngine F V⦄ : OrderGateway F V → ℕ → Type 0 where
  start : (config : GatewayConfig) (v : V) → Run (new_gateway config v) 0
  sent : {g : OrderGateway F V} {n : ℕ} (o : Order F) → Run g n → Run (send_order o g).0 (suc n)
  cancelled : {g : OrderGateway F V} {n : ℕ} (id : ℕ) → Run g n → Run (cancel_order id g).0 n
  quoted : {g : OrderGateway F V} {n : ℕ} (q : BboQuote F) → Run g n → Run (process_bbo q g).0 n
  topped : {g : OrderGateway F V} {n : ℕ} (q : BboQuote F) → Run g n → Run (process_l2_top q g).0 n
  traded :
      {g : OrderGateway F V} {n : ℕ} (t : MarketTrade F)
      → Run g n
      → Run (process_market_trade t g).0 n
