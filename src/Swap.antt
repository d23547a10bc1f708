-- ===== src/Swap.antt =====
-- src/routes/swap: quotes and calldata for a swap of two tokens. This file has the requests, the
-- data source (the trait of mod.rs) and what the raindex client decides for it; its children have
-- the amounts in the two denominations and the two processes.
pub mod Amounts
pub mod Process
pub mod Scaling
pub mod Outcomes
pub mod Curated
mod Tests
use st0x_rest_api.Prelude.{
  ℕ, Bool, true, false, ◌&&◌, Option, none, some, List, [], ◌∷◌, String, ◌==◌, if◌then◌else◌, any,
  map, Result, ok, err, ◌>>=◌, ok_or,
}
use st0x_rest_api.ApiError.{ApiError, internal, bad_request, not_found}
use st0x_rest_api.Bytes.{ByteString}
use st0x_rest_api.Sdk.{RaindexOrder, TokenInfo}
use st0x_rest_api.Floats.{FloatOps}
use st0x_rest_api.Denomination.{Denomination, wrapped, unwrapped, WrapRatioMap}

-- src/types/swap.rs
pub record SwapQuoteRequest : Type 0 where
  pub input_token : ℕ
  pub output_token : ℕ
  pub output_amount : String
  pub denomination : Denomination

pub record SwapQuoteResponse : Type 0 where
  pub input_token : ℕ
  pub output_token : ℕ
  pub output_amount : String
  pub denomination : Denomination
  pub estimated_output : String
  pub estimated_input : String
  pub estimated_io_ratio : String

pub record SwapCalldataRequest : Type 0 where
  pub taker : ℕ
  pub input_token : ℕ
  pub output_token : ℕ
  pub output_amount : String
  pub maximum_io_ratio : String
  pub denomination : Denomination

pub data SwapCalldataMode : Type 0 where
  buy_up_to spend_exact spend_up_to : SwapCalldataMode

pub record SwapCalldataV2Request : Type 0 where
  pub taker : ℕ
  pub input_token : ℕ
  pub output_token : ℕ
  pub mode : SwapCalldataMode
  pub amount : String
  pub price_cap : String
  pub denomination : Denomination

pub record Approval : Type 0 where
  pub token : ℕ
  pub spender : ℕ
  pub amount : String
  pub symbol : String
  pub approval_data : ByteString

pub record SwapCalldataResponse : Type 0 where
  pub to : ℕ
  pub data_bytes : ByteString
  pub value : ℕ
  pub estimated_input : String
  pub denomination : Denomination
  pub approvals : List Approval

-- The raindex client's modes and its request.
pub data TakeOrdersMode : Type 0 where
  take_buy_exact take_buy_up_to take_spend_exact take_spend_up_to : TakeOrdersMode

pub record TakeOrdersRequest : Type 0 where
  pub taker : ℕ
  pub chain_id : ℕ
  pub sell_token : ℕ
  pub buy_token : ℕ
  pub mode : TakeOrdersMode
  pub amount : String
  pub price_cap : String

-- The constant of src/main.rs.
abbrev pub chain_id : ℕ
chain_id = 8453

-- The trait `SwapDataSource`, for the time of one request. A candidate belongs to the client.
pub record SwapDataSource : Type 1 where
  pub Candidate : Type 0
  pub validate_supported_tokens : ℕ → ℕ → Result ApiError (Unit {0})
  pub get_orders_for_pair : ℕ → ℕ → Result ApiError (List RaindexOrder)
  pub build_candidates_for_pair : List RaindexOrder → ℕ → ℕ → Result ApiError (List Candidate)
  pub get_calldata : TakeOrdersRequest → Result ApiError SwapCalldataResponse
  pub get_wrap_ratios_for_tokens : List ℕ → Result ApiError WrapRatioMap

-- The implementation's check, given the curated tokens (or the client's failure).
unfoldable pub validate_supported_tokens :
    Option (List TokenInfo) → ℕ → ℕ → Result ApiError (Unit {0})
validate_supported_tokens none i o = err (internal "failed to retrieve curated tokens")
validate_supported_tokens (some tokens) i o =
    if any (λ token. token.address == i) tokens && any (λ token. token.address == o) tokens
    then ok tt
    else err (bad_request "unsupported token for this API")

-- The client's two answers to a request for calldata.
pub record ApprovalInfo : Type 0 where
  pub token : ℕ
  pub spender : ℕ
  pub formatted_amount : String
  pub calldata : ByteString

pub record TakeOrdersInfo (Float : Type 0) : Type 0 where
  pub raindex : ℕ
  pub calldata : ByteString
  pub expected_sell : Float

-- The variants of the client's error that the code tells apart; a message is the error's own text.
pub data RaindexError : Type 0 where
  no_liquidity insufficient_liquidity : RaindexError
  same_token_pair non_positive_amount negative_price_cap from_hex_error float_error :
      String → RaindexError
  preflight_error other_error : String → RaindexError

unfoldable pub map_raindex_error : RaindexError → ApiError
map_raindex_error no_liquidity = not_found "no liquidity found for this pair"
map_raindex_error insufficient_liquidity = not_found "no liquidity found for this pair"
map_raindex_error (same_token_pair msg) = bad_request msg
map_raindex_error (non_positive_amount msg) = bad_request msg
map_raindex_error (negative_price_cap msg) = bad_request msg
map_raindex_error (from_hex_error msg) = bad_request msg
map_raindex_error (float_error msg) = bad_request msg
map_raindex_error (preflight_error msg) = bad_request msg
map_raindex_error (other_error msg) = internal "failed to generate calldata"

-- A response that asks for an approval first, and one that takes orders.
unfoldable pub approval_response : ApprovalInfo → SwapCalldataResponse
approval_response info = record {
  to = info.spender;
  data_bytes = [];
  value = 0;
  estimated_input = info.formatted_amount;
  denomination = wrapped;
  approvals =
      (record {
        token = info.token;
        spender = info.spender;
        amount = info.formatted_amount;
        symbol = "";
        approval_data = info.calldata;
      })
      ∷ [];
}

module _ (ops : FloatOps) where
  open ops use {Float}

  unfoldable pub take_orders_response : TakeOrdersInfo Float → Result ApiError SwapCalldataResponse
  take_orders_response info = do
    expected_sell ←
        ok_or (ops.format info.expected_sell) (internal "failed to format expected sell")
    ok (record {
      to = info.raindex;
      data_bytes = info.calldata;
      value = 0;
      estimated_input = expected_sell;
      denomination = wrapped;
      approvals = [];
    })

  -- `get_calldata` of the implementation, on what the client answers.
  unfoldable pub calldata_from :
      Result RaindexError (Option ApprovalInfo × Option (TakeOrdersInfo Float))
      → Result ApiError SwapCalldataResponse
  calldata_from (err e) = err (map_raindex_error e)
  calldata_from (ok (some approval, orders)) = ok (approval_response approval)
  calldata_from (ok (none, some orders)) = take_orders_response orders
  calldata_from (ok (none, none)) = err (internal "unexpected calldata result state")
