-- ===== src/Tokens.antt =====
-- src/routes/tokens.rs: the routes of the tokens. This file has the ratios of the wrapped tokens;
-- the children have the history, the requests to a subgraph, and the proofs.
pub mod History
pub mod Graphql
pub mod Attempts
pub mod Bodies
pub mod Walk
pub mod Batch
pub mod Proofs
pub mod Cursor
pub mod Aggregate
pub mod Details
pub mod Listing
pub mod Public
pub mod Subgraphs
pub mod Listed
mod Tests
use st0x_rest_api.Prelude.{
  ℕ, Bool, ◌&&◌, not, Option, none, some, List, [], ◌∷◌, ◌++◌, String, ◌==◌, if◌then◌else◌, find,
  keep, length, Result, ok, err, ◌>>=◌, ◌>>◌, guard, ok_or, map_err,
}
use st0x_rest_api.ApiError.{ApiError, internal, not_found}
use st0x_rest_api.WrapRatio.{
  TokenCfg, Erc4626BatchResponse, WrapRatioResponse, WrapRatioLookupError, into_api_error,
  batch_message, is_st0x_token, unwrapped_address, from_batch_response, find_wrap_ratio_item,
  build_wrap_ratio_response,
}
use st0x_rest_api.WrapRatio.Rows.{
  WrapRatioBatchInput, WrapRatioBatchGroupResponse, inputs_at, read_wrap_ratios_batch,
}

pub record WrapRatioErrorResponse : Type 0 where
  pub share_address : ℕ
  pub message : String

pub record WrapRatioBatchResponse : Type 0 where
  pub data' : List WrapRatioResponse
  pub errors : List WrapRatioErrorResponse

-- `registry_tokens`, from the client's answer.
unfoldable pub registry_tokens : Option (List TokenCfg) → Result ApiError (List TokenCfg)
registry_tokens found = ok_or found (internal "failed to retrieve token list")

unfoldable pub error_row : ℕ → WrapRatioLookupError → WrapRatioErrorResponse
error_row share_address error = record {
  share_address = share_address;
  message = batch_message error;
}

-- One turn of the first loop: an input, or an error of the response.
abbrev pub sort_input :
    TokenCfg
    → Result WrapRatioLookupError ℕ
    → List WrapRatioBatchInput × List WrapRatioErrorResponse
    → List WrapRatioBatchInput × List WrapRatioErrorResponse
sort_input token (ok expected) (inputs, errors) =
    (record { token = token; expected_asset_address = expected } ∷ inputs, errors)
sort_input token (err e) (inputs, errors) = (inputs, error_row token.address e ∷ errors)

-- The first loop: the inputs and the errors, each in the order of the tokens.
unfoldable pub sort_inputs :
    (String → Option ℕ) → List TokenCfg → List WrapRatioBatchInput × List WrapRatioErrorResponse
sort_inputs parse_address [] = ([], [])
sort_inputs parse_address (token ∷ tokens) =
    sort_input token (unwrapped_address parse_address token) (sort_inputs parse_address tokens)

unfoldable pub lookup_row :
    Erc4626BatchResponse → WrapRatioBatchInput → Result WrapRatioLookupError WrapRatioResponse
lookup_row response input = find_wrap_ratio_item response.items input.token.address >>= λ item.
    build_wrap_ratio_response item input.expected_asset_address (from_batch_response response)

abbrev pub add_row :
    WrapRatioBatchInput
    → Result WrapRatioLookupError WrapRatioResponse
    → WrapRatioBatchResponse
    → WrapRatioBatchResponse
add_row input (ok row) answer = record { data' = answer.data' ++ row ∷ []; errors = answer.errors }
add_row input (err e) answer = record {
  data' = answer.data';
  errors = answer.errors ++ error_row input.token.address e ∷ [];
}

-- The inner loop over one group, and the loop over the groups, with the answer so far.
unfoldable pub add_rows :
    Erc4626BatchResponse
    → WrapRatioBatchResponse
    → List WrapRatioBatchInput
    → WrapRatioBatchResponse
add_rows response answer [] = answer
add_rows response answer (input ∷ inputs) =
    add_rows response (add_row input (lookup_row response input) answer) inputs

unfoldable pub add_groups :
    List WrapRatioBatchInput
    → WrapRatioBatchResponse
    → List WrapRatioBatchGroupResponse
    → WrapRatioBatchResponse
add_groups inputs answer [] = answer
add_groups inputs answer (group ∷ groups) =
    add_groups inputs (add_rows group.response answer (inputs_at inputs group.input_indices)) groups

-- The last of the groups, `groups.pop()`.
abbrev pub pop : List WrapRatioBatchGroupResponse → Option WrapRatioBatchGroupResponse
pop [] = none
pop (group ∷ []) = some group
pop (group ∷ other ∷ groups) = pop (other ∷ groups)

-- The wrapped token of the registry at an address.
unfoldable pub wrapped_token : Option (List TokenCfg) → ℕ → Result ApiError TokenCfg
wrapped_token registry address = do
  tokens ← registry_tokens registry
  ok_or (find (λ token. token.address == address && is_st0x_token token) tokens)
      (not_found "wrapped ST0x token not found")

module _ (read_rpc : String → List ℕ → Result String Erc4626BatchResponse)
    (parse_address : String → Option ℕ) (registry : Option (List TokenCfg)) where
  -- What the route answers; the snapshots of its data are persisted besides.
  unfoldable pub get_wrap_ratios : Result ApiError WrapRatioBatchResponse
  get_wrap_ratios = do
    tokens ← registry_tokens registry
    let sorted = sort_inputs parse_address (keep is_st0x_token tokens)
    groups ← read_wrap_ratios_batch read_rpc sorted.0
    ok (add_groups sorted.0 (record { data' = []; errors = sorted.1 }) groups)

  unfoldable pub get_wrap_ratio_by_address : ℕ → Result ApiError WrapRatioResponse
  get_wrap_ratio_by_address address = do
    token ← wrapped_token registry address
    expected ← map_err into_api_error (unwrapped_address parse_address token)
    let input : WrapRatioBatchInput = record { token = token; expected_asset_address = expected }
    groups ← read_wrap_ratios_batch read_rpc (input ∷ [])
    group ← ok_or (pop groups) (internal "failed to read ERC4626 ratio")
    guard (length group.response.items == 1) (internal "failed to read ERC4626 ratio")
    map_err into_api_error (lookup_row group.response input)
