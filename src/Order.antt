-- ===== src/Order.antt =====
-- src/routes/order: one order with its trades, and the cancellation of an order.
mod Tests
pub mod Cancel
pub mod Source
use st0x_rest_api.Prelude.{
  ℕ, Bool, Option, none, some, List, [], ◌∷◌, String, any, if◌then◌else◌, first, map, unwrap_or,
  find, ◌==◌, Result, ok, err, ◌>>=◌, ok_or, traverse,
}
use st0x_rest_api.ApiError.{ApiError, internal, not_found}
use st0x_rest_api.Bytes.{ByteString, bytes}
use st0x_rest_api.Text.{contains}
use st0x_rest_api.Sdk.{RaindexVault, RaindexOrder, RaindexOrderQuote, QuoteValue, to_u64}
use st0x_rest_api.Floats.{FloatOps}
use st0x_rest_api.Denomination.{
  Denomination, wrapped, unwrapped, WrapRatioMap, convert_wrapped_amount_for_token,
  convert_wrapped_io_ratio,
}
use st0x_rest_api.IoVaults.{resolve_io_vaults}
use st0x_rest_api.Orders.Summaries.{TokenRef, token_ref, sort_dedup, balance_in}
use st0x_rest_api.Trades.{
  RaindexTrade, TradesOfOrder, input_address, output_address, trade_addresses,
}
use st0x_rest_api.Trades.Listing.{amount_in}

pub data OrderType : Type 0 where
  dca_order solver_order : OrderType

pub record OrderDetailsInfo : Type 0 where
  pub order_type : OrderType
  pub io_ratio : String

pub record OrderTradeEntry : Type 0 where
  pub id : String
  pub tx_hash : ℕ
  pub input_amount : String
  pub output_amount : String
  pub timestamp : ℕ
  pub sender : ℕ

pub record OrderDetail : Type 0 where
  pub order_hash : ℕ
  pub owner : ℕ
  pub order_details : OrderDetailsInfo
  pub input_token : TokenRef
  pub output_token : TokenRef
  pub input_vault_id : ℕ
  pub output_vault_id : ℕ
  pub input_vault_balance : String
  pub output_vault_balance : String
  pub io_ratio : String
  pub created_at : ℕ
  pub orderbook_id : ℕ
  pub trades : List OrderTradeEntry

-- The trait `OrderDataSource`, for the time of one request.
pub record OrderDataSource : Type 0 where
  pub get_orders_by_hash : ℕ → Result ApiError (List RaindexOrder)
  pub get_order_quotes : RaindexOrder → Result ApiError (List RaindexOrderQuote)
  pub get_order_trades : RaindexOrder → Result ApiError (List RaindexTrade)
  pub get_remove_calldata : RaindexOrder → Result ApiError ByteString
  pub get_wrap_ratios_for_tokens : List ℕ → Result ApiError WrapRatioMap

-- `to_lowercase` of a text is given.
unfoldable pub determine_order_type : (ByteString → ByteString) → RaindexOrder → OrderType
determine_order_type to_lowercase order =
    if any (λ deployment. contains (bytes "dca") (to_lowercase deployment))
      order.builder_deployments
    then dca_order
    else solver_order

-- The price of the first quote, or the text for none.
abbrev quoted_ratio : Option RaindexOrderQuote → String
quoted_ratio none = "-"
quoted_ratio (some quote) = elim quote.value [ none ↦ "-" | some v ↦ v.formatted_ratio ]

-- The trades of the order's own entry.
unfoldable pub trades_of_order : ℕ → List TradesOfOrder → List RaindexTrade
trades_of_order order_hash entries = elim (find (λ entry. entry.order_hash == order_hash) entries) [
  | none ↦ []
  | some entry ↦ entry.trades
]

unfoldable pub current_wrap_ratios_for_order_detail :
    OrderDataSource → Denomination → RaindexOrder → List RaindexTrade → Result ApiError WrapRatioMap
current_wrap_ratios_for_order_detail ds wrapped order trades = ok (λ token. none)
current_wrap_ratios_for_order_detail ds unwrapped order trades = do
  vaults ← resolve_io_vaults order
  ds.get_wrap_ratios_for_tokens
      (sort_dedup (vaults.0.token.address ∷ vaults.1.token.address ∷ trade_addresses trades))

module _ (ops : FloatOps) where
  unfoldable pub map_trade :
      RaindexTrade → Denomination → WrapRatioMap → Result ApiError OrderTradeEntry
  map_trade trade denomination wrap_ratios = do
    input_amount ← amount_in ops denomination wrap_ratios trade.input_vault_balance_change
    output_amount ← amount_in ops denomination wrap_ratios trade.output_vault_balance_change
    ok (record {
      id = trade.id;
      tx_hash = trade.transaction.id;
      input_amount = input_amount;
      output_amount = output_amount;
      timestamp = unwrap_or (to_u64 trade.timestamp) 0;
      sender = trade.transaction.from;
    })

  unfoldable pub detail_io_ratio :
      Denomination → String → ℕ → ℕ → WrapRatioMap → Result ApiError String
  detail_io_ratio wrapped io_ratio input_token output_token wrap_ratios = ok io_ratio
  detail_io_ratio unwrapped io_ratio input_token output_token wrap_ratios =
      convert_wrapped_io_ratio ops io_ratio input_token output_token wrap_ratios

  unfoldable pub build_order_detail :
      RaindexOrder
      → OrderType
      → String
      → List RaindexTrade
      → Denomination
      → WrapRatioMap
      → Result ApiError OrderDetail
  build_order_detail order order_type io_ratio trades denomination wrap_ratios = do
    vaults ← resolve_io_vaults order
    trade_entries ← traverse (λ trade. map_trade trade denomination wrap_ratios) trades
    input_balance ← balance_in ops denomination vaults.0 wrap_ratios
    output_balance ← balance_in ops denomination vaults.1 wrap_ratios
    ratio ←
        detail_io_ratio denomination io_ratio vaults.0.token.address vaults.1.token.address
          wrap_ratios
    ok (record {
      order_hash = order.order_hash;
      owner = order.owner;
      order_details = record { order_type = order_type; io_ratio = ratio };
      input_token = token_ref vaults.0.token;
      output_token = token_ref vaults.1.token;
      input_vault_id = vaults.0.vault_id;
      output_vault_id = vaults.1.vault_id;
      input_vault_balance = input_balance;
      output_vault_balance = output_balance;
      io_ratio = ratio;
      created_at = unwrap_or (to_u64 order.timestamp_added) 0;
      orderbook_id = order.raindex;
      trades = trade_entries;
    })

  unfoldable pub process_get_order :
      (ByteString → ByteString) → OrderDataSource → ℕ → Denomination → Result ApiError OrderDetail
  process_get_order to_lowercase ds hash denomination = do
    orders ← ds.get_orders_by_hash hash
    order ← ok_or (first orders) (not_found "order not found")
    quotes ← ds.get_order_quotes order
    trades ← ds.get_order_trades order
    wrap_ratios ← current_wrap_ratios_for_order_detail ds denomination order trades
    build_order_detail order (determine_order_type to_lowercase order) (quoted_ratio (first quotes))
        trades denomination wrap_ratios
