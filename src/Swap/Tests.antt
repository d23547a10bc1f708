-- ===== src/Swap/Tests.antt =====
-- The theorems on swaps at a pair whose input token is wrapped.
use st0x_rest_api.Prelude.{
  ℕ, ◌≡◌, refl, ◌==◌, if◌then◌else◌, Bool, true, false, none, some, List, [], ◌∷◌, String, ok,
  to_option,
}
use st0x_rest_api.Sdk.{TokenInfo}
use st0x_rest_api.Bytes.{bytes}
use st0x_rest_api.Floats.Toy.{toy_ops, times, read, print}
use st0x_rest_api.Denomination.{
  wrapped, unwrapped, WrapRatioMap, parse_ratio, convert_wrapped_io_ratio,
}
use st0x_rest_api.Swap.{
  SwapDataSource, SwapCalldataRequest, SwapCalldataResponse, take_buy_up_to,
  validate_supported_tokens,
}
use st0x_rest_api.Swap.Amounts.{
  CalldataRequestNormalization, ratio_or_one, amount_needs_wrapped_normalization, normalized_amount,
  normalized_io_ratio, parse_user_float, format_float, normalize_values,
  normalize_calldata_request_values, normalize_calldata_response,
}
use st0x_rest_api.Swap.Process.{
  SwapCalldataBuildRequest, normalization_of, take_request, process_swap_calldata_build,
  process_swap_calldata, process_swap_calldata_v2,
}
use st0x_rest_api.Swap.Outcomes.{as_v2, process_swap_calldata-eq-v2}
use st0x_rest_api.Swap.Curated.{IsCurated, process_swap_calldata_build-IsCurated}
use st0x_rest_api.Swap.Scaling.{IsFaithful, normalize_values-convert_wrapped_io_ratio}

abbrev token : ℕ → TokenInfo
token address = record { address = address; name = none; symbol = some "TKN"; decimals = 18 }

abbrev curated : List TokenInfo
curated = token 5 ∷ token 6 ∷ []

abbrev response : SwapCalldataResponse
response = record {
  to = 9;
  data_bytes = bytes "call";
  value = 0;
  estimated_input = "1";
  denomination = wrapped;
  approvals = [];
}

-- Token 5 is wrapped, at a ratio of -1.
abbrev ratios : WrapRatioMap
ratios a = if a == 5 then some (record { share_address = 5; assets_per_share = "-1" }) else none

abbrev ds : SwapDataSource
ds = record {
  Candidate = Unit {0};
  validate_supported_tokens = validate_supported_tokens (some curated);
  get_orders_for_pair = λ i o. ok [];
  build_candidates_for_pair = λ orders i o. ok [];
  get_calldata = λ request. ok response;
  get_wrap_ratios_for_tokens = λ tokens. ok ratios;
}

abbrev request : SwapCalldataRequest
request = record {
  taker = 1;
  input_token = 5;
  output_token = 6;
  output_amount = "1";
  maximum_io_ratio = "-1";
  denomination = unwrapped;
}

process_swap_calldata-eq-v2_example :
    to_option (process_swap_calldata toy_ops ds request)
    ≡ to_option (process_swap_calldata_v2 toy_ops ds (as_v2 request))
process_swap_calldata-eq-v2_example = process_swap_calldata-eq-v2 toy_ops ds request

abbrev wrapped_request : SwapCalldataBuildRequest
wrapped_request = record {
  taker = 1;
  input_token = 5;
  output_token = 6;
  mode = take_buy_up_to;
  amount = "1";
  amount_field = "amount";
  price_cap = "1";
  price_cap_field = "price_cap";
  denomination = wrapped;
}

builds : process_swap_calldata_build toy_ops ds wrapped_request ≡ ok response
unfolding process_swap_calldata_build normalization_of take_request validate_supported_tokens
    normalize_calldata_request_values normalize_calldata_response
builds = refl

process_swap_calldata_build-IsCurated_example :
    (tokens : List TokenInfo) × (some curated ≡ some tokens)
    × IsCurated 5 tokens
    × IsCurated 6 tokens
process_swap_calldata_build-IsCurated_example =
    process_swap_calldata_build-IsCurated toy_ops ds (some curated) wrapped_request response
      (λ i o. refl) builds

abbrev normalization : CalldataRequestNormalization
normalization = record {
  denomination = unwrapped;
  input_token = 5;
  output_token = 6;
  mode = take_buy_up_to;
  amount = "1";
  amount_field = "amount";
  price_cap = "-1";
  price_cap_field = "price_cap";
}

reads_back : (x : Bool) (t : String) → some (print x) ≡ some t → read t ≡ some x
reads_back true t h = let e : "-1" ≡ t = cc in rw⁻¹ e refl
reads_back false t h = let e : "1" ≡ t = cc in rw⁻¹ e refl

toy_faithful : IsFaithful toy_ops
toy_faithful = record { reads_back = reads_back; dash = refl }

undone : (s w y : Bool) → some (times s y) ≡ some w → some (times w y) ≡ some s
undone true true true h = cc
undone true true false h = cc
undone true false true h = cc
undone true false false h = cc
undone false true true h = cc
undone false true false h = cc
undone false false true h = cc
undone false false false h = cc

normalizes : normalize_values toy_ops normalization ratios ≡ ok ("1", "1", ratios)
unfolding normalize_values ratio_or_one parse_ratio parse_user_float normalized_amount
    amount_needs_wrapped_normalization normalized_io_ratio format_float
normalizes = refl

input_ratio : ratio_or_one toy_ops 5 ratios ≡ ok true
unfolding ratio_or_one parse_ratio
input_ratio = refl

output_ratio : ratio_or_one toy_ops 6 ratios ≡ ok false
unfolding ratio_or_one parse_ratio
output_ratio = refl

normalize_values-convert_wrapped_io_ratio_example :
    convert_wrapped_io_ratio toy_ops "1" 5 6 ratios ≡ ok "-1"
normalize_values-convert_wrapped_io_ratio_example =
    normalize_values-convert_wrapped_io_ratio toy_ops normalization ratios true false true "1" "1"
      "-1" toy_faithful input_ratio output_ratio refl refl (λ s w h. undone s w true h)
      (λ s h. undone true s false h) normalizes
