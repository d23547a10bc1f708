-- ===== src/Tokens/Details.antt =====
-- src/routes/token_details.rs: the details of a token, from its vault in a subgraph and the
-- aggregate of all its rows. `decimal` prints a number.
use st0x_rest_api.Prelude.{
  ℕ, ◌-◌, ◌&&◌, Option, none, some, List, String, ltb, leb, str_eq, min, if◌then◌else◌, find, first,
  unwrap_or, Result, ok, err, ◌>>=◌, ok_or, traverse,
}
use st0x_rest_api.ApiError.{ApiError, internal, not_found}
use st0x_rest_api.WrapRatio.{TokenCfg, is_st0x_token}
use st0x_rest_api.AppCache.{AppCache, get_or_try_insert}
use st0x_rest_api.Denomination.{concat}
use st0x_rest_api.Tokens.{registry_tokens}
use st0x_rest_api.Tokens.Proofs.{
  TimestampValue, parse_timestamp, matches_token_proof_address, resolve_sft_subgraph_url,
}
use st0x_rest_api.Tokens.Cursor.{parse_u256_decimal, checked_add_u256, TokenDetailsAggregate}

pub record TokenDetailsSummaryResponse : Type 0 where
  pub address : ℕ
  pub receipt_contract_address : Option ℕ
  pub name : String
  pub symbol : String
  pub decimals : ℕ
  pub total_supply : String
  pub holder_count : ℕ
  pub transfer_count : ℕ
  pub bridged_supply : String
  pub deposit_volume : String
  pub withdraw_volume : String
  pub activity_volume : String

pub record TokenDetailsReceiptActivity : Type 0 where
  pub id : String
  pub tx_hash : String
  pub caller : ℕ
  pub amount : String
  pub timestamp : ℕ
  pub receipt_id : String

pub record TokenDetailsActivityResponse : Type 0 where
  pub deposits : List TokenDetailsReceiptActivity
  pub withdraws : List TokenDetailsReceiptActivity

pub record TokenDetailsResponse : Type 0 where
  pub summary : TokenDetailsSummaryResponse
  pub sft_vault_address : String
  pub deploy_timestamp : ℕ
  pub deployer : ℕ
  pub admin : ℕ
  pub activity : TokenDetailsActivityResponse

-- What the subgraph returns; a reference has one field, which stands for it.
pub record SftReceiptActivity : Type 0 where
  pub id : String
  pub amount : String
  pub timestamp : TimestampValue
  pub transaction : Option String
  pub caller : Option ℕ
  pub receipt : Option String

pub record SftTokenDetailsVault : Type 0 where
  pub id : String
  pub address : String
  pub receipt_contract_address : Option ℕ
  pub total_shares : String
  pub deploy_timestamp : TimestampValue
  pub deployer : ℕ
  pub admin : ℕ
  pub name : String
  pub symbol : String
  pub deposits : List SftReceiptActivity
  pub withdraws : List SftReceiptActivity

pub record SftTokenDetailsSummaryVault : Type 0 where
  pub receipt_contract_address : Option ℕ
  pub wrapped_token_contract_address : Option ℕ
  pub total_shares : String
  pub name : String
  pub symbol : String
  pub token_holder_count : String
  pub share_transfer_count : String
  pub deposit_volume : String
  pub withdraw_volume : String

unfoldable pub checked_sub_u256 : ℕ → ℕ → Result ApiError ℕ
checked_sub_u256 lhs rhs =
    if leb rhs lhs
    then ok (lhs - rhs)
    else err (internal "amount underflow while building token details")

unfoldable pub add_volumes : ℕ → ℕ → Result ApiError ℕ
add_volumes lhs rhs =
    ok_or (checked_add_u256 lhs rhs) (internal "amount overflow while building token details")

-- `filter(|name| !name.is_empty()).unwrap_or_else(|| fallback.to_string())`
abbrev non_empty_or : Option String → String → String
non_empty_or none fallback = fallback
non_empty_or (some name) fallback = if str_eq name "" then fallback else name

unfoldable pub token_name : TokenCfg → String → String
token_name token fallback = non_empty_or token.label fallback

unfoldable pub token_symbol : TokenCfg → String → String
token_symbol token fallback = non_empty_or token.symbol fallback

unfoldable pub activity_limit : Option ℕ → ℕ
activity_limit limit = let asked = unwrap_or limit 5 in min (if ltb asked 1 then 1 else asked) 50

unfoldable pub build_token_details_summary_fields :
    (ℕ → String)
    → TokenCfg
    → Option ℕ
    → String
    → String
    → String
    → TokenDetailsAggregate
    → Result ApiError TokenDetailsSummaryResponse
build_token_details_summary_fields decimal token receipt_contract name symbol shares aggregate = do
  bridged_supply ← checked_sub_u256 aggregate.deposit_volume aggregate.withdraw_volume
  activity_volume ← add_volumes aggregate.deposit_volume aggregate.withdraw_volume
  ok (record {
    address = token.address;
    receipt_contract_address = receipt_contract;
    name = token_name token name;
    symbol = token_symbol token symbol;
    decimals = unwrap_or token.decimals 18;
    total_supply = shares;
    holder_count = aggregate.holder_count;
    transfer_count = aggregate.transfer_count;
    bridged_supply = decimal bridged_supply;
    deposit_volume = decimal aggregate.deposit_volume;
    withdraw_volume = decimal aggregate.withdraw_volume;
    activity_volume = decimal activity_volume;
  })

unfoldable pub build_token_details_summary :
    (ℕ → String)
    → TokenCfg
    → SftTokenDetailsVault
    → TokenDetailsAggregate
    → Result ApiError TokenDetailsSummaryResponse
build_token_details_summary decimal token vault aggregate =
    build_token_details_summary_fields decimal token vault.receipt_contract_address vault.name
      vault.symbol vault.total_shares aggregate

-- `parse::<u64>` and `U256::from_str` are given.
module _ (parse_u64 : String → Option ℕ) where
  unfoldable pub build_receipt_activity :
      SftReceiptActivity → Result ApiError TokenDetailsReceiptActivity
  build_receipt_activity event = do
    transaction ← ok_or event.transaction (internal "receipt activity missing transaction")
    caller ← ok_or event.caller (internal "receipt activity missing caller")
    receipt ← ok_or event.receipt (internal "receipt activity missing receipt")
    timestamp ← parse_timestamp parse_u64 event.timestamp
    ok (record {
      id = event.id;
      tx_hash = transaction;
      caller = caller;
      amount = event.amount;
      timestamp = timestamp;
      receipt_id = receipt;
    })

  unfoldable pub build_token_details_response :
      (ℕ → String)
      → TokenCfg
      → SftTokenDetailsVault
      → TokenDetailsAggregate
      → Result ApiError TokenDetailsResponse
  build_token_details_response decimal token vault aggregate = do
    summary ← build_token_details_summary decimal token vault aggregate
    deposits ← traverse build_receipt_activity vault.deposits
    withdraws ← traverse build_receipt_activity vault.withdraws
    deploy_timestamp ← parse_timestamp parse_u64 vault.deploy_timestamp
    ok (record {
      summary = summary;
      sft_vault_address = vault.address;
      deploy_timestamp = deploy_timestamp;
      deployer = vault.deployer;
      admin = vault.admin;
      activity = record { deposits = deposits; withdraws = withdraws };
    })

  unfoldable pub parse_u64_decimal : String → Result ApiError ℕ
  parse_u64_decimal value = ok_or (parse_u64 value) (internal "invalid count from subgraph")

  unfoldable pub aggregate_from_summary_vault :
      (String → Option ℕ) → SftTokenDetailsSummaryVault → Result ApiError TokenDetailsAggregate
  aggregate_from_summary_vault parse_u256 vault = do
    holder_count ← parse_u64_decimal vault.token_holder_count
    transfer_count ← parse_u64_decimal vault.share_transfer_count
    deposit_volume ← parse_u256_decimal parse_u256 vault.deposit_volume
    withdraw_volume ← parse_u256_decimal parse_u256 vault.withdraw_volume
    ok (record {
      holder_count = holder_count;
      transfer_count = transfer_count;
      deposit_volume = deposit_volume;
      withdraw_volume = withdraw_volume;
    })

  unfoldable pub build_token_details_list_summary_response :
      (String → Option ℕ)
      → (ℕ → String)
      → TokenCfg
      → SftTokenDetailsSummaryVault
      → Result ApiError TokenDetailsSummaryResponse
  build_token_details_list_summary_response parse_u256 decimal token vault = do
    aggregate ← aggregate_from_summary_vault parse_u256 vault
    build_token_details_summary_fields decimal token vault.receipt_contract_address vault.name
        vault.symbol vault.total_shares aggregate

  -- The route of one token. `read_vaults` gives the vaults that the subgraph returns for a token and
  -- a limit of activities, and `read_aggregate` the aggregate of a vault, from the cache or from all
  -- the pages.
  module _ (decimal : ℕ → String)
      (read_vaults : String → ℕ → ℕ → Result ApiError (List SftTokenDetailsVault))
      (read_aggregate : String → ℕ → String → Result ApiError TokenDetailsAggregate) where
    unfoldable pub read_sft_token_details_vault :
        ℕ → String → ℕ → Result ApiError SftTokenDetailsVault
    read_sft_token_details_vault address sft_subgraph_url limit = do
      vaults ← read_vaults sft_subgraph_url address limit
      ok_or (first vaults) (not_found "SFT vault not found for token")

    unfoldable pub read_token_details_response :
        TokenCfg → String → ℕ → Result ApiError TokenDetailsResponse
    read_token_details_response token sft_subgraph_url limit = do
      vault ← read_sft_token_details_vault token.address sft_subgraph_url limit
      aggregate ← read_aggregate sft_subgraph_url token.address vault.id
      build_token_details_response decimal token vault aggregate

    unfoldable pub get_token_details_by_address :
        (String → Option ℕ)
        → Option (List TokenCfg)
        → (String → Option String)
        → ℕ
        → Option ℕ
        → Result ApiError TokenDetailsResponse
    get_token_details_by_address parse_address registry get_subgraph address limit = do
      tokens ← registry_tokens registry
      token ←
          ok_or
            (find
              (λ token.
                is_st0x_token token && matches_token_proof_address parse_address token address)
              tokens)
            (not_found "wrapped ST0x token not found")
      sft_subgraph_url ← resolve_sft_subgraph_url get_subgraph token.network_key
      read_token_details_response token sft_subgraph_url (activity_limit limit)

-- The aggregate of a vault from its cache, or from all the pages; `hex` prints an address as `{:#x}`
-- does.
unfoldable pub token_details_cache_key : (ℕ → String) → String → ℕ → String
token_details_cache_key hex sft_subgraph_url address =
    concat "token-details:" (concat sft_subgraph_url (concat ":" (hex address)))

unfoldable pub read_token_details_aggregate :
    (ℕ → String)
    → AppCache String TokenDetailsAggregate
    → String
    → ℕ
    → Result ApiError TokenDetailsAggregate
    → AppCache String TokenDetailsAggregate × Result ApiError TokenDetailsAggregate
read_token_details_aggregate hex cache sft_subgraph_url wrapped_address uncached =
    get_or_try_insert str_eq cache (token_details_cache_key hex sft_subgraph_url wrapped_address)
      uncached
