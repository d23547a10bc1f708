-- ===== src/Tokens/Listed.antt =====
-- The list of the details of the wrapped tokens leaves no wrapped token out.
use mathlib.Core.List.{Memᴰ}
use mathlib.Core.List.Memᴰ
use mathlib.Core.Path.{subst}
use st0x_rest_api.Prelude.{
  ℕ, ◌≡◌, refl, sym, ap, ◌∙◌, ◌⊎◌, inl, inr, Bool, true, false, Option, none, some, List, [], ◌∷◌,
  String, Result, ok, err, >>=-eq-ok, ok_or, mem-keep, Result-cases, is_empty, ◌&&◌, str_eq,
  if◌then◌else◌,
}
use st0x_rest_api.ApiError.{ApiError}
use st0x_rest_api.WrapRatio.{TokenCfg, is_st0x_token}
use st0x_rest_api.Tokens.{registry_tokens}
use st0x_rest_api.Tokens.Proofs.{resolve_sft_subgraph_url}
use st0x_rest_api.Tokens.Details.{
  TokenDetailsSummaryResponse, SftTokenDetailsSummaryVault, checked_sub_u256, add_volumes,
  build_token_details_summary_fields, aggregate_from_summary_vault,
  build_token_details_list_summary_response,
}
use st0x_rest_api.Tokens.Listing.{
  TokenDetailsListResponse, TokenDetailsBatchItem, VaultMap, TokensBySubgraph, VaultsBySubgraph,
  token_details_list_cache_key, details_error, group_items, push_row, read_subgraphs, details_row,
  add_vaults_row, add_item, add_items, DetailsCache, details_of_items, batch_items, answer_of,
  get_token_details,
}
use st0x_rest_api.Tokens.Subgraphs.{
  HasDetailsError, more_errors, last_error, HasEntry, group_items-Grouped, read_subgraphs-errors,
  read_subgraphs-IsRead,
}

abbrev pub HasSummary : ℕ → List TokenDetailsSummaryResponse → Type 0
HasSummary address rows =
    (row : TokenDetailsSummaryResponse) × Memᴰ row rows × (row.address ≡ address)

abbrev pub IsListed : ℕ → TokenDetailsListResponse → Type 0
IsListed address answer = HasSummary address answer.data' ⊎ HasDetailsError address answer.errors

push_row-keeps :
    (address : ℕ) (token : TokenCfg) (r : Result ApiError TokenDetailsSummaryResponse)
    (answer : TokenDetailsListResponse)
    → IsListed address answer
    → IsListed address (push_row token r answer)
push_row-keeps address token (ok row) answer (inl (x, m, e)) =
    inl (x, Memᴰ.append_left (row ∷ []) m, e)
push_row-keeps address token (ok row) answer (inr h) = inr h
push_row-keeps address token (err error) answer (inl h) = inl h
push_row-keeps address token (err error) answer (inr h) =
    inr (more_errors address answer.errors (details_error error token ∷ []) h)

push_row-IsListed :
    (token : TokenCfg) (r : Result ApiError TokenDetailsSummaryResponse)
    (answer : TokenDetailsListResponse)
    → ((row : TokenDetailsSummaryResponse) → r ≡ ok row → row.address ≡ token.address)
    → IsListed token.address (push_row token r answer)
push_row-IsListed token (ok row) answer h =
    inl (row, Memᴰ.append_right answer.data' (Memᴰ.head refl), h row refl)
push_row-IsListed token (err error) answer h = inr (last_error error token answer.errors)

module _ (parse_u64 parse_u256 : String → Option ℕ) (decimal : ℕ → String) where
  details_row-address :
      (token : TokenCfg) (vaults : VaultMap) (row : TokenDetailsSummaryResponse)
      → details_row parse_u64 parse_u256 decimal token vaults ≡ ok row
      → row.address ≡ token.address
  unfolding details_row build_token_details_list_summary_response build_token_details_summary_fields
  details_row-address token vaults row h =
      let (vault, found, h1) = >>=-eq-ok (ok_or (vaults token.address) _) _ h in
      let (aggregate, read, h2) =
        >>=-eq-ok (aggregate_from_summary_vault parse_u64 parse_u256 vault) _ h1 in
      let (bridged, subtracted, h3) =
        >>=-eq-ok (checked_sub_u256 aggregate.deposit_volume aggregate.withdraw_volume) _ h2 in
      let (activity, added, h4) =
        >>=-eq-ok (add_volumes aggregate.deposit_volume aggregate.withdraw_volume) _ h3 in
      cc

  add_vaults_row-keeps :
      (o : Option VaultMap) (address : ℕ) (token : TokenCfg) (answer : TokenDetailsListResponse)
      → IsListed address answer
      → IsListed address (add_vaults_row parse_u64 parse_u256 decimal token o answer)
  add_vaults_row-keeps none address token answer h = h
  add_vaults_row-keeps (some vaults) address token answer h =
      push_row-keeps address token (details_row parse_u64 parse_u256 decimal token vaults) answer h

  add_item-keeps :
      (found : VaultsBySubgraph) (address : ℕ) (token : TokenCfg) (r : Result ApiError String)
      (answer : TokenDetailsListResponse)
      → IsListed address answer
      → IsListed address (add_item parse_u64 parse_u256 decimal found token r answer)
  add_item-keeps found address token (err e) answer h = h
  add_item-keeps found address token (ok url) answer h =
      add_vaults_row-keeps (found url) address token answer h

  add_items-keeps :
      (found : VaultsBySubgraph) (address : ℕ) (items : List TokenDetailsBatchItem)
      (answer : TokenDetailsListResponse)
      → IsListed address answer
      → IsListed address (add_items parse_u64 parse_u256 decimal found answer items)
  unfolding add_items
  add_items-keeps found address [] answer h = h
  add_items-keeps found address (item ∷ items) answer h =
      add_items-keeps found address items _
        (add_item-keeps found address item.token item.sft_subgraph_url answer h)

  add_items-IsListed :
      (found : VaultsBySubgraph) (item : TokenDetailsBatchItem) (items : List TokenDetailsBatchItem)
      (url : String) (vaults : VaultMap) (answer : TokenDetailsListResponse)
      → Memᴰ item items
      → item.sft_subgraph_url ≡ ok url
      → found url ≡ some vaults
      → IsListed item.token.address (add_items parse_u64 parse_u256 decimal found answer items)
  unfolding add_items
  add_items-IsListed found item [] url vaults answer m e f = elim m [ ]
  add_items-IsListed found item (i ∷ items) url vaults answer (Memᴰ.tail m) e f =
      add_items-IsListed found item items url vaults _ m e f
  add_items-IsListed found item (i ∷ items) url vaults answer (Memᴰ.head here) e f =
      let resolved : i.sft_subgraph_url ≡ ok url = ap (λ j. j.sft_subgraph_url) (sym here) ∙ e in
      let pushed : IsListed i.token.address
          (add_item parse_u64 parse_u256 decimal found i.token i.sft_subgraph_url answer) =
        rw resolved
          (rw f (push_row-IsListed i.token _ answer (details_row-address i.token vaults))) in
      subst (λ a. IsListed a (add_items parse_u64 parse_u256 decimal found answer (i ∷ items)))
        (sym (ap (λ j. j.token.address) here))
        (add_items-keeps found i.token.address items _ pushed)

mem-batch_items :
    (get_subgraph : String → Option String) (token : TokenCfg) (tokens : List TokenCfg)
    → Memᴰ token tokens
    → is_st0x_token token ≡ true
    → Memᴰ
        (record {
          token = token;
          sft_subgraph_url = resolve_sft_subgraph_url get_subgraph token.network_key;
        })
        (batch_items get_subgraph tokens)
unfolding batch_items
mem-batch_items get_subgraph token tokens m wanted =
    Memᴰ.map
      (λ (t : TokenCfg). record {
        token = t;
        sft_subgraph_url = resolve_sft_subgraph_url get_subgraph t.network_key;
      })
      (mem-keep is_st0x_token tokens m wanted)

-- The cache after an answer: a full one is what it now has at the key.
abbrev pub kept : DetailsCache → String → TokenDetailsListResponse → DetailsCache
kept cache key answer k = if is_empty answer.errors && str_eq key k then some answer else cache k

kept_if :
    (b : Bool) (cache : DetailsCache) (key : String) (answer : TokenDetailsListResponse)
    → (if b then (λ k. if str_eq key k then some answer else cache k) else cache)
      ≡ (λ k. if b && str_eq key k then some answer else cache k)
kept_if true cache key answer = refl
kept_if false cache key answer = refl

-- An iteration over a map meets all its entries.
abbrev pub IsIteration : (TokensBySubgraph → TokensBySubgraph) → Type 0
IsIteration arrange =
    (groups : TokensBySubgraph) (g : String × List TokenCfg)
    → Memᴰ g groups
    → Memᴰ g (arrange groups)

module _ (parse_u64 parse_u256 : String → Option ℕ) (decimal hex : ℕ → String)
    (query : String → List ℕ → Result ApiError (List SftTokenDetailsSummaryVault))
    (arrange : TokensBySubgraph → TokensBySubgraph) where
  details_of_items-IsListed :
      (item : TokenDetailsBatchItem) (items : List TokenDetailsBatchItem)
      → IsIteration arrange
      → Memᴰ item items
      → IsListed item.token.address
          (details_of_items parse_u64 parse_u256 decimal hex query arrange items)
  unfolding details_of_items
  details_of_items-IsListed item items all m =
      let grouped = group_items ([], []) items in
      let found = read_subgraphs query (λ url. none, grouped.1) (arrange grouped.0) in
      let start : TokenDetailsListResponse = record { data' = []; errors = found.1 } in
      let placed = group_items-Grouped item items ([], []) m in
      elim (Result-cases item.sft_subgraph_url) [
        | inl (url, resolved) ↦
            let (g, n, same, k) : HasEntry url item.token grouped.0 = rw resolved at placed in
            elim (read_subgraphs-IsRead query g item.token (arrange grouped.0)
              (λ u. none, grouped.1) (all grouped.0 g n) k) [
                | inl (vaults, read) ↦
                    add_items-IsListed parse_u64 parse_u256 decimal found.0 item items url vaults
                      start m resolved (ap found.0 (sym same) ∙ read)
                | inr failed ↦
                    add_items-keeps parse_u64 parse_u256 decimal found.0 item.token.address items
                      start (inr failed)
              ]
        | inr (e, unresolved) ↦
            let failed : HasDetailsError item.token.address grouped.1 = rw unresolved at placed in
            add_items-keeps parse_u64 parse_u256 decimal found.0 item.token.address items start (
              inr (
                read_subgraphs-errors query item.token.address (arrange grouped.0)
                  (λ u. none, grouped.1) failed))
      ]

-- Where the cache has no answer for the wrapped tokens of the registry, the route of all details
-- answers, and for each wrapped token the answer has a summary with the token's address or an error
-- with it. The cache keeps the answer if it has no errors, and is otherwise left as it was.
pub get_token_details-answers :
    (parse_u64 parse_u256 : String → Option ℕ) (decimal hex : ℕ → String)
    (query : String → List ℕ → Result ApiError (List SftTokenDetailsSummaryVault))
    (arrange : TokensBySubgraph → TokensBySubgraph) (cache : DetailsCache) (tokens : List TokenCfg)
    (get_subgraph : String → Option String)
    → IsIteration arrange
    → cache (token_details_list_cache_key hex (batch_items get_subgraph tokens)) ≡ none
    → (answer : TokenDetailsListResponse) × (get_token_details parse_u64 parse_u256 decimal hex
          query arrange cache
          (some tokens)
          get_subgraph
        ≡ (
          kept cache (token_details_list_cache_key hex (batch_items get_subgraph tokens)) answer,
          ok answer,
        ))
      × ((token : TokenCfg)
          → Memᴰ token tokens
          → is_st0x_token token ≡ true
          → IsListed token.address answer)
unfolding get_token_details registry_tokens
get_token_details-answers parse_u64 parse_u256 decimal hex query arrange cache tokens get_subgraph
      all missed =
    let items = batch_items get_subgraph tokens in
    let answer = details_of_items parse_u64 parse_u256 decimal hex query arrange items in
    (
      answer,
      ap (answer_of parse_u64 parse_u256 decimal hex query arrange cache items) missed
          ∙ ap (λ c. (c, ok answer))
              (kept_if (is_empty answer.errors) cache (token_details_list_cache_key hex items)
                answer),
      λ token m wanted.
          details_of_items-IsListed parse_u64 parse_u256 decimal hex query arrange _ items all
            (mem-batch_items get_subgraph token tokens m wanted),
    )
