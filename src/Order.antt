-- ===== src/Order.antt =====
-- include/tt/core/order.hpp: orders, trades and the enums that they hold.
use trader_two.Prelude.{ℕ, ℤ, Bool, true, false}

pub data Side : Type 0 where
  buy sell : Side

pub data OrderType : Type 0 where
  market limit : OrderType

pub data TimeInForce : Type 0 where
  gtc ioc fok : TimeInForce

pub data OrderStatus : Type 0 where
  new partially_filled filled cancelled rejected expired : OrderStatus

unfoldable pub opposite : Side → Side
opposite buy = sell
opposite sell = buy

-- The intrusive list node of an order is its place in the queue of its level.
pub record Order : Type 0 where
  pub id : ℕ
  pub trader_id : ℕ
  pub instrument_id : ℕ
  pub side : Side
  pub type : OrderType
  pub tif : TimeInForce
  pub price : ℤ
  pub quantity : ℤ
  pub remaining : ℤ
  pub sequence : ℕ
  pub timestamp : ℕ
  pub status : OrderStatus

abbrev pub type_is_limit : OrderType → Bool
type_is_limit market = false
type_is_limit limit = true

abbrev pub tif_is_ioc : TimeInForce → Bool
tif_is_ioc gtc = false
tif_is_ioc ioc = true
tif_is_ioc fok = false

abbrev pub side_is_buy : Side → Bool
side_is_buy buy = true
side_is_buy sell = false

abbrev pub status_is_open : OrderStatus → Bool
status_is_open new = true
status_is_open partially_filled = true
status_is_open filled = false
status_is_open cancelled = false
status_is_open rejected = false
status_is_open expired = false

-- `status == Filled || status == Cancelled`
abbrev pub status_is_gone : OrderStatus → Bool
status_is_gone new = false
status_is_gone partially_filled = false
status_is_gone filled = true
status_is_gone cancelled = true
status_is_gone rejected = false
status_is_gone expired = false

-- `if (o.status == New) o.status = PartiallyFilled`
abbrev pub touch_status : OrderStatus → OrderStatus
touch_status new = partially_filled
touch_status partially_filled = partially_filled
touch_status filled = filled
touch_status cancelled = cancelled
touch_status rejected = rejected
touch_status expired = expired

abbrev pub is_limit : Order → Bool
is_limit o = type_is_limit o.type

abbrev pub is_market : Order → Bool
is_market o = elim o.type [ market ↦ true | limit ↦ false ]

abbrev pub is_buy : Order → Bool
is_buy o = side_is_buy o.side

abbrev pub is_open : Order → Bool
is_open o = status_is_open o.status

pub record Trade : Type 0 where
  pub id : ℕ
  pub instrument_id : ℕ
  pub buy_order_id : ℕ
  pub sell_order_id : ℕ
  pub buy_trader_id : ℕ
  pub sell_trader_id : ℕ
  pub price : ℤ
  pub quantity : ℤ
  pub sequence : ℕ
  pub timestamp : ℕ
