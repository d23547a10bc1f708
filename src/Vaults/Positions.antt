-- ===== src/Vaults/Positions.antt =====
-- src/routes/vaults.rs: the vaults of an owner, page by page.
use st0x_rest_api.Prelude.{
  ℕ, zero, suc, Bool, true, false, Option, none, some, List, [], ◌∷◌, String, map, min, unwrap_or,
  Result, ok, err, ◌>>=◌, ◌>>◌, guard, not,
}
use st0x_rest_api.ApiError.{ApiError, bad_request}
use st0x_rest_api.Denomination.{concat}
use st0x_rest_api.Vaults.{VaultTokenResponse, VaultRecord, VaultsDataSource, default_page}

abbrev default_page_size : ℕ
default_page_size = 100

abbrev max_page_size : ℕ
max_page_size = 100

pub record VaultPositionResponse : Type 0 where
  pub id : String
  pub vault_id : String
  pub owner : ℕ
  pub token : VaultTokenResponse
  pub balance : ℕ
  pub orderbook : ℕ
  pub orders_as_input : List ℕ
  pub orders_as_output : List ℕ

unfoldable pub position_response : VaultRecord → VaultPositionResponse
position_response vault = record {
  id = vault.id;
  vault_id = vault.vault_id;
  owner = vault.owner;
  token = vault.token;
  balance = vault.balance;
  orderbook = vault.orderbook;
  orders_as_input = vault.orders_as_input;
  orders_as_output = vault.orders_as_output;
}

pub record VaultsPagination : Type 0 where
  pub page : ℕ
  pub page_size : ℕ
  pub total_items : ℕ
  pub has_more : Bool

pub record VaultsResponse : Type 0 where
  pub vaults : List VaultPositionResponse
  pub pagination : VaultsPagination

pub record VaultsQueryParams : Type 0 where
  pub owner : Option String
  pub token : Option String
  pub hide_zero_balance : Option Bool
  pub page : Option ℕ
  pub page_size : Option ℕ

is_zero : ℕ → Bool
is_zero zero = true
is_zero (suc n) = false

unfoldable pub pagination : VaultsQueryParams → Result ApiError (ℕ × ℕ)
unfolding is_zero
pagination params = do
  guard (not (is_zero (unwrap_or params.page default_page)))
      (bad_request "page must be greater than zero")
  guard (not (is_zero (unwrap_or params.page_size default_page_size)))
      (bad_request "pageSize must be greater than zero")
  ok (
    unwrap_or params.page default_page,
    min (unwrap_or params.page_size default_page_size) max_page_size,
  )

-- `parse` is the reading of an address by the package alloy.
module _ (parse : String → Option ℕ) where
  unfoldable pub parse_address : String → String → Result ApiError ℕ
  parse_address value field = elim (parse value) [
    | none ↦ err (bad_request (concat field " must be a valid address"))
    | some address ↦ ok address
  ]

  owner_of : Option String → Result ApiError ℕ
  owner_of none = err (bad_request "owner is required")
  owner_of (some owner) = parse_address owner "owner"

  token_of : Option String → Result ApiError (Option (List ℕ))
  token_of none = ok none
  token_of (some token) = parse_address token "token" >>= λ address. ok (some (address ∷ []))

  unfoldable pub process_get_vaults :
      VaultsDataSource → VaultsQueryParams → Result ApiError VaultsResponse
  unfolding owner_of token_of
  process_get_vaults ds params = do
    owner ← owner_of params.owner
    tokens ← token_of params.token
    pages ← pagination params
    page ←
        ds
          (record {
            owners = owner ∷ [];
            hide_zero_balance = unwrap_or params.hide_zero_balance false;
            tokens = tokens;
          })
          pages.0 pages.1
    ok (record {
      vaults = map position_response page.vaults;
      pagination = record {
        page = page.page;
        page_size = page.page_size;
        total_items = page.total_items;
        has_more = page.has_more;
      };
    })
