-- ===== src/WrapRatio.antt =====
-- src/wrap_ratio.rs and src/erc4626.rs: the ratios of the wrapped tokens, read chain by chain.
-- The multicall on one RPC endpoint (package rain_erc) and the parser of addresses are parameters.
pub mod Rows
pub mod Laws
pub mod Snapshots
pub mod Recorded
pub mod Range
mod Tests
use st0x_rest_api.Prelude.{
  ℕ, Bool, true, false, Option, none, some, List, [], ◌∷◌, ◌++◌, String, ◌==◌, str_eq,
  if◌then◌else◌, not, ◌&&◌, map, any, keep, is_empty, unwrap_or, Result, ok, err, ◌>>=◌, ◌>>◌,
  guard, ok_or, map_err, traverse, get_elem?, enumerate_from, group_from,
}
use st0x_rest_api.ApiError.{ApiError, internal}
use st0x_rest_api.Denomination.{WrapRatioValue, WrapRatioMap}

-- A JSON value: a text, or something else with its printed form.
pub data JsonValue : Type 0 where
  json_text : String → JsonValue
  json_other : String → JsonValue

-- The fields of `TokenCfg` that are read, with the key, the chain's id and the RPC endpoints of its
-- network.
pub record TokenCfg : Type 0 where
  pub address : ℕ
  pub decimals : Option ℕ
  pub label : Option String
  pub symbol : Option String
  pub network_key : String
  pub chain_id : ℕ
  pub rpcs : List String
  pub extensions : Option (String → Option JsonValue)

-- What the package rain_erc returns.
pub record Erc4626Ratio : Type 0 where
  pub asset_address : ℕ
  pub assets_display : String

pub record Erc4626BatchItem : Type 0 where
  pub vault_address : ℕ
  pub success : Bool
  pub error : Option String
  pub data' : Option Erc4626Ratio

pub record Erc4626BatchResponse : Type 0 where
  pub block_number : ℕ
  pub block_timestamp : ℕ
  pub captured_at : String
  pub items : List Erc4626BatchItem

pub record WrapRatioResponse : Type 0 where
  pub share_address : ℕ
  pub asset_address : ℕ
  pub assets_per_share : String
  pub block_number : ℕ
  pub block_timestamp : Option ℕ
  pub captured_at : String

pub data WrapRatioLookupError : Type 0 where
  missing_unwrapped_address : WrapRatioLookupError
  invalid_unwrapped_address : String → WrapRatioLookupError
  asset_mismatch : WrapRatioLookupError
  batch_item : String → WrapRatioLookupError
  missing_batch_item : WrapRatioLookupError
  duplicate_batch_item : WrapRatioLookupError

unfoldable pub into_api_error : WrapRatioLookupError → ApiError
into_api_error missing_unwrapped_address = internal "token is missing unwrappedAddress"
into_api_error (invalid_unwrapped_address value) = internal "token has invalid unwrappedAddress"
into_api_error asset_mismatch = internal "token unwrappedAddress does not match ERC4626 asset"
into_api_error (batch_item message) = internal "failed to read ERC4626 ratio"
into_api_error missing_batch_item = internal "failed to read ERC4626 ratio"
into_api_error duplicate_batch_item = internal "failed to read ERC4626 ratio"

unfoldable pub batch_message : WrapRatioLookupError → String
batch_message missing_unwrapped_address = "missing registry unwrappedAddress"
batch_message (invalid_unwrapped_address value) = "invalid registry unwrappedAddress"
batch_message asset_mismatch = "registry unwrappedAddress does not match ERC4626 asset"
batch_message (batch_item message) = "failed to read ERC4626 ratio"
batch_message missing_batch_item = "failed to read ERC4626 ratio"
batch_message duplicate_batch_item = "failed to read ERC4626 ratio"

-- `extensions.as_ref().and_then(|extensions| extensions.get(key))`
abbrev pub extension : TokenCfg → String → Option JsonValue
extension token key = elim token.extensions [ none ↦ none | some extensions ↦ extensions key ]

abbrev is_text : String → Option JsonValue → Bool
is_text expected (some (json_text value)) = str_eq value expected
is_text expected (some (json_other value)) = false
is_text expected none = false

unfoldable pub is_st0x_token : TokenCfg → Bool
is_st0x_token token = is_text "ST0x" (extension token "category")

abbrev pub address_of : (String → Option ℕ) → Option JsonValue → Result WrapRatioLookupError ℕ
address_of parse_address none = err missing_unwrapped_address
address_of parse_address (some (json_other value)) = err (invalid_unwrapped_address value)
address_of parse_address (some (json_text address)) =
    ok_or (parse_address address) (invalid_unwrapped_address address)

unfoldable pub unwrapped_address : (String → Option ℕ) → TokenCfg → Result WrapRatioLookupError ℕ
unwrapped_address parse_address token =
    address_of parse_address (extension token "unwrappedAddress")

unfoldable pub assets_per_share_display : String → String
assets_per_share_display assets_display =
    if str_eq assets_display "1" then "1.0" else assets_display

pub record WrapRatioMetadata : Type 0 where
  pub block_number : ℕ
  pub block_timestamp : Option ℕ
  pub captured_at : String

unfoldable pub from_batch_response : Erc4626BatchResponse → WrapRatioMetadata
from_batch_response response = record {
  block_number = response.block_number;
  block_timestamp = some response.block_timestamp;
  captured_at = response.captured_at;
}

-- The matching items: none, one, or more.
unfoldable pub one_item : List Erc4626BatchItem → Result WrapRatioLookupError Erc4626BatchItem
one_item [] = err missing_batch_item
one_item (item ∷ []) = ok item
one_item (item ∷ other ∷ items) = err duplicate_batch_item

unfoldable pub find_wrap_ratio_item :
    List Erc4626BatchItem → ℕ → Result WrapRatioLookupError Erc4626BatchItem
find_wrap_ratio_item items share_address =
    one_item (keep (λ item. item.vault_address == share_address) items)

unfoldable pub build_wrap_ratio_response :
    Erc4626BatchItem → ℕ → WrapRatioMetadata → Result WrapRatioLookupError WrapRatioResponse
build_wrap_ratio_response item expected_asset_address metadata = do
  guard item.success (batch_item (unwrap_or item.error "failed to read ERC4626 ratio"))
  ratio ← ok_or item.data' (batch_item "missing ERC4626 batch item data")
  guard (ratio.asset_address == expected_asset_address) asset_mismatch
  ok (record {
    share_address = item.vault_address;
    asset_address = expected_asset_address;
    assets_per_share = assets_per_share_display ratio.assets_display;
    block_number = metadata.block_number;
    block_timestamp = metadata.block_timestamp;
    captured_at = metadata.captured_at;
  })
