-- ===== src/Exchange/Venue.antt =====
-- `IMatchingEngine` (src/exchange/matching_engine.h), what a client asks of a venue, and the matching
-- engine as one. A call gives the reports that the callback is called with during it, in their order.
use toy_quant_v.Base.{ℕ, List, [], ◌∷◌, if◌then◌else◌}
use toy_quant_v.Base.Maps.{contains}
use toy_quant_v.Common.Types.{BboQuote, MarketTrade}
use toy_quant_v.Common.Float.{Float}
use toy_quant_v.Exchange.Order.{Order, ExecutionReport}
use toy_quant_v.Exchange.Queue.{Random}
use toy_quant_v.Exchange.Engine.{Engine}
use toy_quant_v.Exchange.Engine.Send
use toy_quant_v.Exchange.Engine.Cancel
use toy_quant_v.Exchange.Engine.Feed

pub data OrderQuery : Type 0 where
  unknown working : OrderQuery

pub record MatchingEngine (F V : Type 0) : Type 0 where
  pub send_order : Order F → V → V × List (ExecutionReport F)
  pub process_bbo : BboQuote F → V → V × List (ExecutionReport F)
  pub process_l2_top : BboQuote F → V → V × List (ExecutionReport F)
  pub process_market_trade : MarketTrade F → V → V × List (ExecutionReport F)
  pub cancel_order : ℕ → V → V × List (ExecutionReport F)
  pub rejected_orders : V → ℕ
  pub query_order : ℕ → V → OrderQuery

module _ {F : Type 0} where
  -- The engine keeps its newest report first.
  unfoldable pub oldest_first :
      List (ExecutionReport F) → List (ExecutionReport F) → List (ExecutionReport F)
  oldest_first [] later = later
  oldest_first (r ∷ rs) later = oldest_first rs (r ∷ later)

module _ {F R : Type 0} where
  -- The engine after a call, and what the call reported.
  abbrev pub reporting :
      (Engine F R → Engine F R) → Engine F R → Engine F R × List (ExecutionReport F)
  reporting f e =
      let after = f (record e { reports = [] }) in
      (record after { reports = [] }, oldest_first after.reports [])

  unfoldable pub query_engine : ℕ → Engine F R → OrderQuery
  query_engine order_id e =
      if contains order_id e.order_index then OrderQuery.working else OrderQuery.unknown

module _ {F R : Type 0} ⦃fl : Float F⦄ ⦃rn : Random F R⦄ where
  instance abbrev pub engine_venue : MatchingEngine F (Engine F R)
  engine_venue = record {
    send_order = λ o e. reporting (Send.send_order o) e;
    process_bbo = λ q e. reporting (Feed.process_bbo q) e;
    process_l2_top = λ q e. reporting (Feed.process_l2_top q) e;
    process_market_trade = λ t e. reporting (Feed.process_market_trade t) e;
    cancel_order = λ id e. reporting (Cancel.cancel_order id) e;
    rejected_orders = λ e. e.rejected_orders;
    query_order = query_engine;
  }
