-- ===== src/WrapRatio/Rows.antt =====
-- src/wrap_ratio.rs and src/erc4626.rs: the batches by chain, and the row of each token.
use st0x_rest_api.Prelude.{
  ℕ, Bool, Option, none, some, List, [], ◌∷◌, ◌++◌, String, ◌==◌, ◌&&◌, map, any, keep, Result, ok,
  err, ◌>>=◌, map_err, traverse, get_elem?, enumerate_from, group_from, insert_fn,
}
use st0x_rest_api.ApiError.{ApiError, internal}
use st0x_rest_api.Denomination.{WrapRatioMap}
use st0x_rest_api.WrapRatio.{
  TokenCfg, Erc4626BatchResponse, WrapRatioResponse, into_api_error, is_st0x_token,
  unwrapped_address, from_batch_response, find_wrap_ratio_item, build_wrap_ratio_response,
}

pub data Erc4626ReadError : Type 0 where
  missing_rpc : Erc4626ReadError
  all_rpcs_failed : List String → Erc4626ReadError

pub record WrapRatioBatchInput : Type 0 where
  pub token : TokenCfg
  pub expected_asset_address : ℕ

pub record WrapRatioBatchGroupResponse : Type 0 where
  pub input_indices : List ℕ
  pub response : Erc4626BatchResponse

-- `inputs_by_chain`: the indices of the inputs under their chains, in the order of the chains.
unfoldable pub inputs_by_chain : List WrapRatioBatchInput → List (ℕ × List ℕ)
inputs_by_chain inputs =
    group_from (λ p. p.1.token.chain_id) (λ p. p.0) [] (enumerate_from 0 inputs)

abbrev pub prepend_some :
    Option WrapRatioBatchInput → List WrapRatioBatchInput → List WrapRatioBatchInput
prepend_some none inputs = inputs
prepend_some (some input) inputs = input ∷ inputs

-- `filter_map(|index| inputs.get(*index))`
abbrev pub inputs_at : List WrapRatioBatchInput → List ℕ → List WrapRatioBatchInput
inputs_at inputs [] = []
inputs_at inputs (index ∷ indices) =
    prepend_some (get_elem? inputs index) (inputs_at inputs indices)

-- `iter().copied().collect::<HashSet<_>>().contains(address)`
abbrev pub requested : List ℕ → ℕ → Bool
requested addresses address = any (λ a. a == address) addresses

-- The multicall at one endpoint for the vaults of some tokens, or the error's text.
module _ (read_rpc : String → List ℕ → Result String Erc4626BatchResponse) where
  -- The loop over the endpoints, with the errors so far.
  unfoldable pub try_rpcs :
      List ℕ → List String → List String → Result Erc4626ReadError Erc4626BatchResponse
  try_rpcs vaults errors [] = err (all_rpcs_failed errors)
  try_rpcs vaults errors (rpc ∷ rpcs) = elim (read_rpc rpc vaults) [
    | ok response ↦ ok response
    | err error ↦ try_rpcs vaults (errors ++ error ∷ []) rpcs
  ]

  unfoldable pub batch_share_ratios :
      List String → List ℕ → Result Erc4626ReadError Erc4626BatchResponse
  batch_share_ratios [] vaults = err missing_rpc
  batch_share_ratios (rpc ∷ rpcs) vaults = try_rpcs vaults [] (rpc ∷ rpcs)

  -- One chain of the loop: the endpoints are those of the group's first input.
  unfoldable pub read_group :
      List ℕ → List WrapRatioBatchInput → Result ApiError (List WrapRatioBatchGroupResponse)
  read_group input_indices [] = ok []
  read_group input_indices (first_input ∷ others) =
      map_err (λ error. internal "failed to read ERC4626 ratios")
        (batch_share_ratios first_input.token.rpcs
          (map (λ input. input.token.address) (first_input ∷ others)))
      >>= λ response. ok (record { input_indices = input_indices; response = response } ∷ [])

  unfoldable pub read_groups :
      List WrapRatioBatchInput
      → List (ℕ × List ℕ)
      → Result ApiError (List WrapRatioBatchGroupResponse)
  read_groups inputs [] = ok []
  read_groups inputs ((chain_id, input_indices) ∷ groups) = do
    here ← read_group input_indices (inputs_at inputs input_indices)
    later ← read_groups inputs groups
    ok (here ++ later)

  unfoldable pub read_wrap_ratios_batch :
      List WrapRatioBatchInput → Result ApiError (List WrapRatioBatchGroupResponse)
  read_wrap_ratios_batch inputs = read_groups inputs (inputs_by_chain inputs)

-- The row of one input, from its group's response.
unfoldable pub row_of :
    Erc4626BatchResponse → WrapRatioBatchInput → Result ApiError WrapRatioResponse
row_of response input = map_err into_api_error (
    find_wrap_ratio_item response.items input.token.address >>= λ item.
    build_wrap_ratio_response item input.expected_asset_address (from_batch_response response))

unfoldable pub rows_of :
    List WrapRatioBatchInput
    → List WrapRatioBatchGroupResponse
    → Result ApiError (List WrapRatioResponse)
rows_of inputs [] = ok []
rows_of inputs (group ∷ groups) = do
  here ← traverse (row_of group.response) (inputs_at inputs group.input_indices)
  later ← rows_of inputs groups
  ok (here ++ later)

-- The loop over the tokens that are asked for.
unfoldable pub input_of : (String → Option ℕ) → TokenCfg → Result ApiError WrapRatioBatchInput
input_of parse_address token =
    map_err into_api_error (unwrapped_address parse_address token) >>= λ expected.
    ok (record { token = token; expected_asset_address = expected })

unfoldable pub is_wanted : List ℕ → TokenCfg → Bool
is_wanted share_addresses token = requested share_addresses token.address && is_st0x_token token

module _ (read_rpc : String → List ℕ → Result String Erc4626BatchResponse)
    (parse_address : String → Option ℕ) where
  unfoldable pub read_wrap_ratio_responses_for_addresses :
      List TokenCfg → List ℕ → Result ApiError (List WrapRatioResponse)
  read_wrap_ratio_responses_for_addresses tokens share_addresses = do
    inputs ← traverse (input_of parse_address) (keep (is_wanted share_addresses) tokens)
    groups ← read_wrap_ratios_batch read_rpc inputs
    rows_of inputs groups

-- `collect` into a hash map: a later row replaces an earlier one of the same token.
unfoldable pub values_from : WrapRatioMap → List WrapRatioResponse → WrapRatioMap
values_from ratios [] = ratios
values_from ratios (row ∷ rows) =
    values_from
      (insert_fn row.share_address
        (record { share_address = row.share_address; assets_per_share = row.assets_per_share })
        ratios)
      rows

unfoldable pub wrap_ratio_values_from_responses : List WrapRatioResponse → WrapRatioMap
wrap_ratio_values_from_responses = values_from (λ token. none)
