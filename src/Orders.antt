-- ===== src/Orders.antt =====
-- src/routes/orders: the lists of orders. This file has the data source that the routes read and
-- the filters and page numbers; its children have the quotes and the responses.
pub mod Kind
pub mod Quotes
pub mod Cache
pub mod Summaries
pub mod Pages
pub mod Listed
pub mod Tokens
pub mod Active
pub mod Coherence
pub mod Listing
pub mod Grouping
pub mod Batching
mod Tests
use st0x_rest_api.Prelude.{
  ℕ, Bool, true, false, Option, none, some, List, [], ◌∷◌, String, ltb, ◌==◌, if◌then◌else◌, min,
  unwrap_or, Result,
}
use st0x_rest_api.ApiError.{ApiError}
use st0x_rest_api.Sdk.{RaindexOrder, RaindexOrderQuote, div_ceil}
use st0x_rest_api.Denomination.{WrapRatioMap}

abbrev pub default_page_size : ℕ
default_page_size = 20

abbrev pub max_page_size : ℕ
max_page_size = 50

pub data OrderState : Type 0 where
  active inactive all_states : OrderState

pub data OrderSide : Type 0 where
  input_side output_side : OrderSide

-- `GetOrdersFilters`, the fields that the routes set.
pub record GetOrdersFilters : Type 0 where
  pub owners : List ℕ
  pub order_hash : Option ℕ
  pub active : Option Bool
  pub token_inputs : Option (List ℕ)
  pub token_outputs : Option (List ℕ)
  pub has_positive_output_vault_balance : Option Bool

-- The trait `OrdersListDataSource`, for the time of one request.
pub record OrdersListDataSource : Type 0 where
  pub get_orders_list :
      GetOrdersFilters → Option ℕ → Option ℕ → Result ApiError (List RaindexOrder × ℕ)
  pub get_order_quotes : RaindexOrder → Result ApiError (List RaindexOrderQuote)
  pub get_order_quotes_batch_for_chain :
      List RaindexOrder → Result ApiError (List (List RaindexOrderQuote))
  pub get_wrap_ratios_for_tokens : List ℕ → Result ApiError WrapRatioMap

unfoldable pub active_filter_for_state : Option OrderState → Option Bool
active_filter_for_state none = some true
active_filter_for_state (some active) = some true
active_filter_for_state (some inactive) = some false
active_filter_for_state (some all_states) = none

pub record OrdersPagination : Type 0 where
  pub page : ℕ
  pub page_size : ℕ
  pub total_orders : ℕ
  pub total_pages : ℕ
  pub has_more : Bool

unfoldable pub build_pagination : ℕ → ℕ → ℕ → OrdersPagination
build_pagination total_count page page_size =
    let total_pages = if page_size == 0 then 0 else div_ceil total_count page_size in
    record {
      page = page;
      page_size = page_size;
      total_orders = total_count;
      total_pages = total_pages;
      has_more = ltb page total_pages;
    }
