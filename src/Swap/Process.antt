-- ===== src/Swap/Process.antt =====
-- src/routes/swap/quote.rs and calldata.rs: a swap's quote and its calldata.
use st0x_rest_api.Prelude.{
  ℕ, zero, suc, Bool, true, false, Option, List, String, is_empty, Result, ok, ◌>>=◌, ◌>>◌, ok_or,
  guard, not,
}
use st0x_rest_api.ApiError.{ApiError, internal, bad_request, not_found}
use st0x_rest_api.Floats.{FloatOps}
use st0x_rest_api.Denomination.{Denomination}
use st0x_rest_api.Swap.{
  SwapDataSource, SwapQuoteRequest, SwapQuoteResponse, SwapCalldataRequest, SwapCalldataV2Request,
  SwapCalldataMode, buy_up_to, spend_exact, spend_up_to, SwapCalldataResponse, TakeOrdersMode,
  take_buy_up_to, take_spend_exact, take_spend_up_to, TakeOrdersRequest, chain_id,
}
use st0x_rest_api.Swap.Amounts.{
  CalldataRequestNormalization, normalize_quote_amounts, normalize_calldata_request_values,
  normalize_calldata_response,
}

-- What the client's simulation of a purchase gives: the number of legs is all that the code reads
-- of them.
pub record Simulation (Float : Type 0) : Type 0 where
  pub legs : ℕ
  pub total_input : Float
  pub total_output : Float

unfoldable pub has_legs : ℕ → Bool
has_legs zero = false
has_legs (suc n) = true

-- src/routes/swap/calldata.rs
pub record SwapCalldataBuildRequest : Type 0 where
  pub taker : ℕ
  pub input_token : ℕ
  pub output_token : ℕ
  pub mode : TakeOrdersMode
  pub amount : String
  pub amount_field : String
  pub price_cap : String
  pub price_cap_field : String
  pub denomination : Denomination

unfoldable pub from_v1 : SwapCalldataRequest → SwapCalldataBuildRequest
from_v1 req = record {
  taker = req.taker;
  input_token = req.input_token;
  output_token = req.output_token;
  mode = take_buy_up_to;
  amount = req.output_amount;
  amount_field = "output_amount";
  price_cap = req.maximum_io_ratio;
  price_cap_field = "maximum_io_ratio";
  denomination = req.denomination;
}

unfoldable pub from_mode : SwapCalldataMode → TakeOrdersMode
from_mode buy_up_to = take_buy_up_to
from_mode spend_exact = take_spend_exact
from_mode spend_up_to = take_spend_up_to

unfoldable pub from_v2 : SwapCalldataV2Request → SwapCalldataBuildRequest
from_v2 req = record {
  taker = req.taker;
  input_token = req.input_token;
  output_token = req.output_token;
  mode = from_mode req.mode;
  amount = req.amount;
  amount_field = "amount";
  price_cap = req.price_cap;
  price_cap_field = "price_cap";
  denomination = req.denomination;
}

module _ (ops : FloatOps) (ds : SwapDataSource) where
  open ops use {Float}
  open ds use {Candidate}

  -- The part of the quote after the simulation.
  unfoldable pub quote_of_simulation :
      SwapQuoteRequest → Simulation Float → Result ApiError SwapQuoteResponse
  unfolding has_legs
  quote_of_simulation req sim = do
    guard (has_legs sim.legs) (not_found "no valid quotes available")
    amounts ←
        normalize_quote_amounts ops ds req.denomination req.input_token req.output_token
          sim.total_input sim.total_output
    blended_ratio ← ok_or (ops.div amounts.0 amounts.1) (internal "failed to compute ratio")
    formatted_output ← ok_or (ops.format amounts.1) (internal "failed to format estimated output")
    formatted_input ← ok_or (ops.format amounts.0) (internal "failed to format estimated input")
    formatted_ratio ← ok_or (ops.format blended_ratio) (internal "failed to format ratio")
    ok (record {
      input_token = req.input_token;
      output_token = req.output_token;
      output_amount = req.output_amount;
      denomination = req.denomination;
      estimated_output = formatted_output;
      estimated_input = formatted_input;
      estimated_io_ratio = formatted_ratio;
    })

  -- `simulate` is the client's `simulate_buy_over_candidates`.
  unfoldable pub process_swap_quote :
      (List Candidate → Float → Float → Option (Simulation Float))
      → SwapQuoteRequest
      → Result ApiError SwapQuoteResponse
  process_swap_quote simulate req = do
    ds.validate_supported_tokens req.input_token req.output_token
    orders ← ds.get_orders_for_pair req.input_token req.output_token
    guard (not (is_empty orders)) (not_found "no liquidity found for this pair")
    candidates ← ds.build_candidates_for_pair orders req.input_token req.output_token
    guard (not (is_empty candidates)) (not_found "no valid quotes available")
    buy_target ← ok_or (ops.parse req.output_amount) (bad_request "invalid output_amount")
    price_cap ← ok_or ops.max_positive_value (internal "failed to create price cap")
    sim ← ok_or (simulate candidates buy_target price_cap) (internal "failed to simulate swap")
    quote_of_simulation req sim

  unfoldable pub normalization_of : SwapCalldataBuildRequest → CalldataRequestNormalization
  normalization_of req = record {
    denomination = req.denomination;
    input_token = req.input_token;
    output_token = req.output_token;
    mode = req.mode;
    amount = req.amount;
    amount_field = req.amount_field;
    price_cap = req.price_cap;
    price_cap_field = req.price_cap_field;
  }

  unfoldable pub take_request : SwapCalldataBuildRequest → String → String → TakeOrdersRequest
  take_request req amount price_cap = record {
    taker = req.taker;
    chain_id = chain_id;
    sell_token = req.input_token;
    buy_token = req.output_token;
    mode = req.mode;
    amount = amount;
    price_cap = price_cap;
  }

  unfoldable pub process_swap_calldata_build :
      SwapCalldataBuildRequest → Result ApiError SwapCalldataResponse
  process_swap_calldata_build req = do
    ds.validate_supported_tokens req.input_token req.output_token
    values ← normalize_calldata_request_values ops ds (normalization_of req)
    response ← ds.get_calldata (take_request req values.0 values.1)
    normalize_calldata_response ops values.2 req.denomination req.input_token response

  unfoldable pub process_swap_calldata : SwapCalldataRequest → Result ApiError SwapCalldataResponse
  process_swap_calldata req = process_swap_calldata_build (from_v1 req)

  unfoldable pub process_swap_calldata_v2 :
      SwapCalldataV2Request → Result ApiError SwapCalldataResponse
  process_swap_calldata_v2 req = process_swap_calldata_build (from_v2 req)
