-- ===== src/Tokens/Listing.antt =====
-- src/routes/token_details.rs: the list of the details of all wrapped tokens, and its cache.
use Prim.Native.Nat.{Ordering}
use Prim.Native.String.{compare, ◌++◌ as concat}
use st0x_rest_api.Prelude.{
  ℕ, zero, suc, Option, none, some, List, [], ◌∷◌, ◌++◌, String, str_eq, if◌then◌else◌, map, keep,
  is_empty, length, take, drop, FnMap, insert_fn, Result, ok, err, ◌>>=◌, ok_or,
}
use st0x_rest_api.ApiError.{ApiError, not_found, api_error_message}
use st0x_rest_api.WrapRatio.{TokenCfg, is_st0x_token}
use st0x_rest_api.Tokens.{registry_tokens}
use st0x_rest_api.Tokens.Proofs.{resolve_sft_subgraph_url}
use st0x_rest_api.Tokens.Details.{
  TokenDetailsSummaryResponse, SftTokenDetailsSummaryVault,
  build_token_details_list_summary_response,
}

pub record TokenDetailsErrorResponse : Type 0 where
  pub address : ℕ
  pub message : String

pub record TokenDetailsListResponse : Type 0 where
  pub data' : List TokenDetailsSummaryResponse
  pub errors : List TokenDetailsErrorResponse

pub record TokenDetailsBatchItem : Type 0 where
  pub token : TokenCfg
  pub sft_subgraph_url : Result ApiError String

-- The key of the cache: the sorted parts of the items; `hex` prints an address as `{:#x}` does.
-- Equal texts cannot be told apart, so that a stable sort is the unstable one.
abbrev insert_part : String → List String → List String
insert_part part [] = part ∷ []
insert_part part (other ∷ parts) =
    let later = insert_part part parts in
    elim (compare part other) [ Ordering.gt ↦ other ∷ later | _ ↦ part ∷ other ∷ parts ]

abbrev sort_parts : List String → List String
sort_parts [] = []
sort_parts (part ∷ parts) = insert_part part (sort_parts parts)

abbrev sft_key : Result ApiError String → String
sft_key (ok url) = url
sft_key (err error) = api_error_message error

abbrev push_parts : String → List String → String
push_parts key [] = key
push_parts key (part ∷ parts) = push_parts (concat (concat key "|") part) parts

unfoldable pub token_details_list_cache_key : (ℕ → String) → List TokenDetailsBatchItem → String
token_details_list_cache_key hex items = push_parts "token-details-list" (
    sort_parts (
      map
        (λ item. concat item.token.network_key (
          concat ":"
            (concat (hex item.token.address) (concat ":" (sft_key item.sft_subgraph_url)))))
        items))

-- `chunks(size)`; there are no more chunks than elements.
unfoldable pub chunks_from {ℓ} : {A : Type ℓ} → ℕ → ℕ → List A → List (List A)
chunks_from zero size xs = []
chunks_from (suc fuel) size [] = []
chunks_from (suc fuel) size (x ∷ xs) =
    take size (x ∷ xs) ∷ chunks_from fuel size (drop size (x ∷ xs))

abbrev pub VaultMap : Type 0
VaultMap = FnMap SftTokenDetailsSummaryVault

abbrev insert_wrapped : Option ℕ → SftTokenDetailsSummaryVault → VaultMap → VaultMap
insert_wrapped none vault vaults = vaults
insert_wrapped (some wrapped_address) vault vaults = insert_fn wrapped_address vault vaults

abbrev insert_vaults : VaultMap → List SftTokenDetailsSummaryVault → VaultMap
insert_vaults vaults [] = vaults
insert_vaults vaults (vault ∷ rest) =
    insert_vaults (insert_wrapped vault.wrapped_token_contract_address vault vaults) rest

-- The first two loops of the route over the items and over the subgraphs, the third over the items.
abbrev pub TokensBySubgraph : Type 0
TokensBySubgraph = List (String × List TokenCfg)

unfoldable pub entry_token : String → TokenCfg → TokensBySubgraph → TokensBySubgraph
entry_token url token [] = (url, token ∷ []) ∷ []
entry_token url token ((u, tokens) ∷ entries) =
    if str_eq url u
    then (u, tokens ++ token ∷ []) ∷ entries
    else (u, tokens) ∷ entry_token url token entries

unfoldable pub details_error : ApiError → TokenCfg → TokenDetailsErrorResponse
details_error error token = record { address = token.address; message = api_error_message error }

abbrev pub group_item :
    TokenCfg
    → Result ApiError String
    → TokensBySubgraph × List TokenDetailsErrorResponse
    → TokensBySubgraph × List TokenDetailsErrorResponse
group_item token (ok url) (groups, errors) = (entry_token url token groups, errors)
group_item token (err error) (groups, errors) = (groups, errors ++ details_error error token ∷ [])

unfoldable pub group_items :
    TokensBySubgraph × List TokenDetailsErrorResponse
    → List TokenDetailsBatchItem
    → TokensBySubgraph × List TokenDetailsErrorResponse
group_items grouped [] = grouped
group_items grouped (item ∷ items) =
    group_items (group_item item.token item.sft_subgraph_url grouped) items

abbrev pub VaultsBySubgraph : Type 0
VaultsBySubgraph = String → Option VaultMap

abbrev pub add_subgraph :
    String
    → List TokenCfg
    → Result ApiError VaultMap
    → VaultsBySubgraph × List TokenDetailsErrorResponse
    → VaultsBySubgraph × List TokenDetailsErrorResponse
add_subgraph url tokens (ok vaults) (found, errors) =
    (λ u. if str_eq url u then some vaults else found u, errors)
add_subgraph url tokens (err error) (found, errors) =
    (found, errors ++ map (details_error error) tokens)

abbrev pub push_row :
    TokenCfg
    → Result ApiError TokenDetailsSummaryResponse
    → TokenDetailsListResponse
    → TokenDetailsListResponse
push_row token (ok row) answer = record answer { data' = answer.data' ++ row ∷ [] }
push_row token (err error) answer = record answer {
  errors = answer.errors ++ details_error error token ∷ [];
}

-- `query` is the request of one chunk of addresses to a subgraph.
module _ (query : String → List ℕ → Result ApiError (List SftTokenDetailsSummaryVault)) where
  unfoldable pub read_chunks : String → VaultMap → List (List ℕ) → Result ApiError VaultMap
  read_chunks url vaults [] = ok vaults
  read_chunks url vaults (chunk ∷ chunks) =
      query url chunk >>= λ found. read_chunks url (insert_vaults vaults found) chunks

  unfoldable pub read_token_details_list_vaults : String → List ℕ → Result ApiError VaultMap
  read_token_details_list_vaults url addresses =
      read_chunks url (λ address. none) (chunks_from (length addresses) 1000 addresses)

  unfoldable pub read_subgraphs :
      VaultsBySubgraph × List TokenDetailsErrorResponse
      → TokensBySubgraph
      → VaultsBySubgraph × List TokenDetailsErrorResponse
  read_subgraphs found [] = found
  read_subgraphs found ((url, tokens) ∷ groups) =
      read_subgraphs
        (add_subgraph url tokens
          (read_token_details_list_vaults url (map (λ token. token.address) tokens)) found)
        groups

module _ (parse_u64 parse_u256 : String → Option ℕ) (decimal : ℕ → String) where
  unfoldable pub details_row : TokenCfg → VaultMap → Result ApiError TokenDetailsSummaryResponse
  details_row token vaults =
      ok_or (vaults token.address) (not_found "SFT vault not found for token")
      >>= build_token_details_list_summary_response parse_u64 parse_u256 decimal token

  abbrev pub add_vaults_row :
      TokenCfg → Option VaultMap → TokenDetailsListResponse → TokenDetailsListResponse
  add_vaults_row token none answer = answer
  add_vaults_row token (some vaults) answer = push_row token (details_row token vaults) answer

  abbrev pub add_item :
      VaultsBySubgraph
      → TokenCfg
      → Result ApiError String
      → TokenDetailsListResponse
      → TokenDetailsListResponse
  add_item found token (err error) answer = answer
  add_item found token (ok url) answer = add_vaults_row token (found url) answer

  unfoldable pub add_items :
      VaultsBySubgraph
      → TokenDetailsListResponse
      → List TokenDetailsBatchItem
      → TokenDetailsListResponse
  add_items found answer [] = answer
  add_items found answer (item ∷ items) =
      add_items found (add_item found item.token item.sft_subgraph_url answer) items

abbrev pub DetailsCache : Type 0
DetailsCache = String → Option TokenDetailsListResponse

-- A partial answer is not put into the cache.
abbrev pub cached_answer :
    DetailsCache
    → String
    → TokenDetailsListResponse
    → DetailsCache × Result ApiError TokenDetailsListResponse
cached_answer cache key response = (
  if is_empty response.errors
      then (λ k. if str_eq key k then some response else cache k)
      else cache,
  ok response,
)

unfoldable pub batch_items : (String → Option String) → List TokenCfg → List TokenDetailsBatchItem
batch_items get_subgraph tokens =
    map
      (λ token. record {
        token = token;
        sft_subgraph_url = resolve_sft_subgraph_url get_subgraph token.network_key;
      })
      (keep is_st0x_token tokens)

-- `arrange` is the order in which the map of the subgraphs is iterated over.
module _ (parse_u64 parse_u256 : String → Option ℕ) (decimal hex : ℕ → String)
    (query : String → List ℕ → Result ApiError (List SftTokenDetailsSummaryVault))
    (arrange : TokensBySubgraph → TokensBySubgraph) where
  -- What the route reads where its cache has no answer.
  unfoldable pub details_of_items : List TokenDetailsBatchItem → TokenDetailsListResponse
  details_of_items items =
      let grouped = group_items ([], []) items in
      let found = read_subgraphs query (λ url. none, grouped.1) (arrange grouped.0) in
      add_items parse_u64 parse_u256 decimal found.0 (record { data' = []; errors = found.1 }) items

  abbrev pub answer_of :
      DetailsCache
      → List TokenDetailsBatchItem
      → Option TokenDetailsListResponse
      → DetailsCache × Result ApiError TokenDetailsListResponse
  answer_of cache items (some response) = (cache, ok response)
  answer_of cache items none =
      cached_answer cache (token_details_list_cache_key hex items) (details_of_items items)

  abbrev pub with_tokens :
      DetailsCache
      → (String → Option String)
      → Result ApiError (List TokenCfg)
      → DetailsCache × Result ApiError TokenDetailsListResponse
  with_tokens cache get_subgraph (err error) = (cache, err error)
  with_tokens cache get_subgraph (ok tokens) =
      let items = batch_items get_subgraph tokens in
      answer_of cache items (cache (token_details_list_cache_key hex items))

  unfoldable pub get_token_details :
      DetailsCache
      → Option (List TokenCfg)
      → (String → Option String)
      → DetailsCache × Result ApiError TokenDetailsListResponse
  get_token_details cache registry get_subgraph =
      with_tokens cache get_subgraph (registry_tokens registry)
