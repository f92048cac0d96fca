-- ===== src/Common/Types.antt =====
-- The enumerations of src/common/types.h and the market events of src/common/market_event.h.
use toy_quant_v.Base.{ℕ, Bytes, Bool, true, false}

-- The venue's side of a public print, `Unknown` included.
pub data Side : Type 0 where
  unknown buy sell : Side

pub data ExecType : Type 0 where
  trade partial_fill filled cancelled resting rejected : ExecType

pub data QueueModel : Type 0 where
  conservative pro_rata lumpy optimistic : QueueModel

pub data TimeInForce : Type 0 where
  gtc ioc fok : TimeInForce

pub record MarketTrade (F : Type 0) : Type 0 where
  pub ts : ℕ
  pub symbol : Bytes
  pub price : F
  pub quantity : ℕ
  pub aggressor_side : Side
  pub sequence : ℕ
  pub exchange : Bytes

pub record BboQuote (F : Type 0) : Type 0 where
  pub ts : ℕ
  pub symbol : Bytes
  pub bid_price : F
  pub bid_quantity : ℕ
  pub ask_price : F
  pub ask_quantity : ℕ
  pub sequence : ℕ
  pub exchange : Bytes

abbrev pub gtc? : TimeInForce → Bool
gtc? TimeInForce.gtc = true
gtc? TimeInForce.ioc = false
gtc? TimeInForce.fok = false

abbrev pub fok? : TimeInForce → Bool
fok? TimeInForce.gtc = false
fok? TimeInForce.ioc = false
fok? TimeInForce.fok = true
