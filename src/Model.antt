-- ===== src/Model.antt =====
-- services/matching-engine/model: orders, commands, events and trades; services/order-service/model
-- has the same types. A uuid is its 128-bit number, and an instant a number of nanoseconds. The
-- string types Side, OrderType and OrderStatus are open: a value that is none of the constants is
-- kept with its text.
use tradesphere.Base.{
  arith, refl, ◌≡◌, ◌≢◌, ==_iff, ℕ, Bool, true, false, Option, ◌==◌, if◌then◌else◌,
}
use tradesphere.Int.{ℤ}
use tradesphere.Text.{Text}

pub data Side : Type 0 where
  buy sell : Side
  other_side : Text → Side

pub data OrderType : Type 0 where
  limit market : OrderType
  other_type : Text → OrderType

pub data OrderStatus : Type 0 where
  new partially_filled filled cancelled : OrderStatus
  other_status : Text → OrderStatus

pub data OrderCommandType : Type 0 where
  create_order cancel_order : OrderCommandType
  other_command : Text → OrderCommandType

pub data OrderEventType : Type 0 where
  order_update order_cancelled : OrderEventType
  other_event : Text → OrderEventType

pub record Order : Type 0 where
  pub id : ℕ
  pub user_id : ℕ
  pub symbol : Text
  pub side : Side
  pub type : OrderType
  pub price : ℤ
  pub quantity : ℤ
  pub remaining_quantity : ℤ
  pub reserved_amount : ℤ
  pub status : OrderStatus
  pub created_at : ℕ

pub record OrderEvent : Type 0 where
  pub id : ℕ
  pub type : OrderEventType
  pub order_id : ℕ
  pub user_id : ℕ
  pub symbol : Text
  pub side : Side
  pub status : OrderStatus
  pub remaining_quantity : ℤ
  pub reserved_amount : ℤ
  pub created_at : ℕ

pub record CancelRequest : Type 0 where
  pub order_id : ℕ
  pub user_id : ℕ
  pub symbol : Text
  pub side : Side

-- `order` is the pointer's target: the consumer decodes a new object for each message.
pub record OrderCommand : Type 0 where
  pub id : ℕ
  pub type : OrderCommandType
  pub symbol : Text
  pub order : Option Order
  pub cancel : Option CancelRequest
  pub created_at : ℕ

pub record Trade : Type 0 where
  pub id : ℕ
  pub symbol : Text
  pub buyer_user_id : ℕ
  pub seller_user_id : ℕ
  pub buy_order_id : ℕ
  pub sell_order_id : ℕ
  pub price : ℤ
  pub quantity : ℤ
  pub executed_at : ℕ

abbrev pub is_buy : Side → Bool
is_buy buy = true
is_buy _ = false

abbrev pub is_sell : Side → Bool
is_sell sell = true
is_sell _ = false

abbrev pub is_market : OrderType → Bool
is_market market = true
is_market _ = false

abbrev pub is_limit : OrderType → Bool
is_limit limit = true
is_limit _ = false

abbrev pub is_cancelled : OrderStatus → Bool
is_cancelled cancelled = true
is_cancelled _ = false

abbrev pub is_filled : OrderStatus → Bool
is_filled filled = true
is_filled _ = false

-- What uuid.New and time.Now return at each call, by the number of calls made before.
pub record World : Type 0 where
  pub new_uuid : ℕ → ℕ
  pub now : ℕ → ℕ

-- The order objects, by address, and the calls made of the world.
pub record Store : Type 0 where
  pub cells : ℕ → Order
  pub draws : ℕ

abbrev pub update {ℓ} : {A : Type ℓ} → (ℕ → A) → ℕ → A → ℕ → A
update f a v p = if a == p then v else f p

module _ {ℓ} {A : Type ℓ} (f : ℕ → A) (a : ℕ) (v : A) where
  pub update_self : update f a v a ≡ v
  update_self = rw ((==_iff a a).1 refl)

  pub update-ne : (p : ℕ) → a ≢ p → update f a v p ≡ f p
  update-ne p h = let e : (a == p) ≡ false = ground arith in rw e
