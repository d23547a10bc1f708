-- ===== src/Tokens/Subgraphs.antt =====
-- The loops of the list of details over its items and over the subgraphs: each token is in the
-- group of its subgraph, which was read, or it has an error.
use mathlib.Core.List.{Memᴰ}
use mathlib.Core.List.Memᴰ
use mathlib.Core.Path.{subst}
use st0x_rest_api.Prelude.{
  ℕ, ◌≡◌, refl, sym, ap, ◌∙◌, ◌⊎◌, inl, inr, some, List, [], ◌∷◌, ◌++◌, String, str_eq, eq_iff,
  Bool-cases, Result, ok, err, map,
}
use st0x_rest_api.ApiError.{ApiError}
use st0x_rest_api.WrapRatio.{TokenCfg}
use st0x_rest_api.Tokens.Details.{SftTokenDetailsSummaryVault}
use st0x_rest_api.Tokens.Listing.{
  TokenDetailsErrorResponse, TokenDetailsBatchItem, VaultMap, TokensBySubgraph, VaultsBySubgraph,
  entry_token, details_error, group_item, group_items, add_subgraph, read_token_details_list_vaults,
  read_subgraphs,
}

abbrev pub HasDetailsError : ℕ → List TokenDetailsErrorResponse → Type 0
HasDetailsError address errors =
    (e : TokenDetailsErrorResponse) × Memᴰ e errors × (e.address ≡ address)

pub more_errors :
    (address : ℕ) (errors more : List TokenDetailsErrorResponse)
    → HasDetailsError address errors
    → HasDetailsError address (errors ++ more)
more_errors address errors more (e, m, same) = (e, Memᴰ.append_left more m, same)

pub last_error :
    (error : ApiError) (token : TokenCfg) (errors : List TokenDetailsErrorResponse)
    → HasDetailsError token.address (errors ++ details_error error token ∷ [])
unfolding details_error
last_error error token errors =
    (details_error error token, Memᴰ.append_right errors (Memᴰ.head refl), refl)

errors_of_all :
    (error : ApiError) (token : TokenCfg) (tokens : List TokenCfg)
    → Memᴰ token tokens
    → HasDetailsError token.address (map (details_error error) tokens)
unfolding details_error
errors_of_all error token [] m = elim m [ ]
errors_of_all error token (t ∷ tokens) (Memᴰ.head e) =
    (details_error error t, Memᴰ.head refl, ap (λ c. c.address) (sym e))
errors_of_all error token (t ∷ tokens) (Memᴰ.tail m) =
    let (e, n, same) = errors_of_all error token tokens m in (e, Memᴰ.tail n, same)

-- The first loop: a token with a subgraph is in the subgraph's group, another one has an error.
abbrev pub HasEntry : String → TokenCfg → TokensBySubgraph → Type 0
HasEntry url token groups =
    (g : String × List TokenCfg) × Memᴰ g groups × (g.0 ≡ url) × Memᴰ token g.1

entry_token-keeps :
    (url u : String) (token other : TokenCfg) (groups : TokensBySubgraph)
    → HasEntry u other groups
    → HasEntry u other (entry_token url token groups)
unfolding entry_token
entry_token-keeps url u token other [] (g, m, e, n) = elim m [ ]
entry_token-keeps url u token other ((v, tokens) ∷ groups) (g, m, e, n) =
    elim (Bool-cases (str_eq url v)) [
      | inl hit ↦ rw hit (elim m [
        | Memᴰ.head here ↦ (
          (v, tokens ++ token ∷ []),
          Memᴰ.head refl,
          sym (ap (λ p. p.0) here) ∙ e,
          Memᴰ.append_left (token ∷ []) (subst (λ p. Memᴰ other p.1) here n),
        )
        | Memᴰ.tail later ↦ (g, Memᴰ.tail later, e, n)
      ])
      | inr miss ↦ rw miss (elim m [
        | Memᴰ.head here ↦ (g, Memᴰ.head here, e, n)
        | Memᴰ.tail later ↦
            let (h, k, f, l) = entry_token-keeps url u token other groups (g, later, e, n) in
            (h, Memᴰ.tail k, f, l)
      ])
    ]

entry_token-HasEntry :
    (url : String) (token : TokenCfg) (groups : TokensBySubgraph)
    → HasEntry url token (entry_token url token groups)
unfolding entry_token
entry_token-HasEntry url token [] = ((url, token ∷ []), Memᴰ.head refl, refl, Memᴰ.head refl)
entry_token-HasEntry url token ((v, tokens) ∷ groups) = elim (Bool-cases (str_eq url v)) [
  | inl hit ↦ rw hit (
    (v, tokens ++ token ∷ []),
    Memᴰ.head refl,
    sym ((eq_iff url v).0 hit),
    Memᴰ.append_right tokens (Memᴰ.head refl),
  )
  | inr miss ↦
      rw miss (let (h, k, f, l) = entry_token-HasEntry url token groups in (h, Memᴰ.tail k, f, l))
]

abbrev pub Grouped :
    TokenCfg → Result ApiError String → TokensBySubgraph × List TokenDetailsErrorResponse → Type 0
Grouped token (ok url) grouped = HasEntry url token grouped.0
Grouped token (err e) grouped = HasDetailsError token.address grouped.1

group_item-keeps :
    (token other : TokenCfg) (r s : Result ApiError String)
    (grouped : TokensBySubgraph × List TokenDetailsErrorResponse)
    → Grouped other s grouped
    → Grouped other s (group_item token r grouped)
group_item-keeps token other (ok url) (ok u) (groups, errors) h =
    entry_token-keeps url u token other groups h
group_item-keeps token other (ok url) (err e) (groups, errors) h = h
group_item-keeps token other (err f) (ok u) (groups, errors) h = h
group_item-keeps token other (err f) (err e) (groups, errors) h =
    more_errors other.address errors (details_error f token ∷ []) h

group_item-Grouped :
    (token : TokenCfg) (r : Result ApiError String)
    (grouped : TokensBySubgraph × List TokenDetailsErrorResponse)
    → Grouped token r (group_item token r grouped)
group_item-Grouped token (ok url) (groups, errors) = entry_token-HasEntry url token groups
group_item-Grouped token (err e) (groups, errors) = last_error e token errors

group_items-keeps :
    (other : TokenCfg) (s : Result ApiError String) (items : List TokenDetailsBatchItem)
    (grouped : TokensBySubgraph × List TokenDetailsErrorResponse)
    → Grouped other s grouped
    → Grouped other s (group_items grouped items)
unfolding group_items
group_items-keeps other s [] grouped h = h
group_items-keeps other s (item ∷ items) grouped h =
    group_items-keeps other s items _
      (group_item-keeps item.token other item.sft_subgraph_url s grouped h)

pub group_items-Grouped :
    (item : TokenDetailsBatchItem) (items : List TokenDetailsBatchItem)
    (grouped : TokensBySubgraph × List TokenDetailsErrorResponse)
    → Memᴰ item items
    → Grouped item.token item.sft_subgraph_url (group_items grouped items)
unfolding group_items
group_items-Grouped item [] grouped m = elim m [ ]
group_items-Grouped item (i ∷ items) grouped (Memᴰ.tail m) = group_items-Grouped item items _ m
group_items-Grouped item (i ∷ items) grouped (Memᴰ.head e) =
    group_items-keeps item.token item.sft_subgraph_url items _ (
      subst
        (λ j. Grouped j.token j.sft_subgraph_url (group_item i.token i.sft_subgraph_url grouped))
        (sym e) (group_item-Grouped i.token i.sft_subgraph_url grouped))

-- The second loop: the subgraph was read, or the token has an error.
abbrev pub IsRead : String → ℕ → VaultsBySubgraph × List TokenDetailsErrorResponse → Type 0
IsRead url address found =
    ((vaults : VaultMap) × (found.0 url ≡ some vaults)) ⊎ HasDetailsError address found.1

add_subgraph-keeps :
    (url u : String) (address : ℕ) (tokens : List TokenCfg) (r : Result ApiError VaultMap)
    (found : VaultsBySubgraph × List TokenDetailsErrorResponse)
    → IsRead u address found
    → IsRead u address (add_subgraph url tokens r found)
add_subgraph-keeps url u address tokens (ok vaults) (found, errors) (inl (old, h)) =
    elim (Bool-cases (str_eq url u)) [
      | inl hit ↦ inl (vaults, rw hit refl)
      | inr miss ↦ inl (old, rw miss h)
    ]
add_subgraph-keeps url u address tokens (ok vaults) (found, errors) (inr h) = inr h
add_subgraph-keeps url u address tokens (err e) (found, errors) (inl h) = inl h
add_subgraph-keeps url u address tokens (err e) (found, errors) (inr h) =
    inr (more_errors address errors (map (details_error e) tokens) h)

add_subgraph-errors :
    (url : String) (address : ℕ) (tokens : List TokenCfg) (r : Result ApiError VaultMap)
    (found : VaultsBySubgraph × List TokenDetailsErrorResponse)
    → HasDetailsError address found.1
    → HasDetailsError address (add_subgraph url tokens r found).1
add_subgraph-errors url address tokens (ok vaults) (found, errors) h = h
add_subgraph-errors url address tokens (err e) (found, errors) h =
    more_errors address errors (map (details_error e) tokens) h

add_subgraph-IsRead :
    (url : String) (token : TokenCfg) (tokens : List TokenCfg) (r : Result ApiError VaultMap)
    (found : VaultsBySubgraph × List TokenDetailsErrorResponse)
    → Memᴰ token tokens
    → IsRead url token.address (add_subgraph url tokens r found)
add_subgraph-IsRead url token tokens (ok vaults) (found, errors) m =
    inl (vaults, rw ((eq_iff url url).1 refl) refl)
add_subgraph-IsRead url token tokens (err e) (found, errors) m =
    let (x, n, same) = errors_of_all e token tokens m in inr (x, Memᴰ.append_right errors n, same)

module _ (query : String → List ℕ → Result ApiError (List SftTokenDetailsSummaryVault)) where
  abbrev answer_for : String → List TokenCfg → Result ApiError VaultMap
  answer_for url tokens =
      read_token_details_list_vaults query url (map (λ token. token.address) tokens)

  read_subgraphs-keeps :
      (u : String) (address : ℕ) (groups : TokensBySubgraph)
      (found : VaultsBySubgraph × List TokenDetailsErrorResponse)
      → IsRead u address found
      → IsRead u address (read_subgraphs query found groups)
  unfolding read_subgraphs
  read_subgraphs-keeps u address [] found h = h
  read_subgraphs-keeps u address ((url, tokens) ∷ groups) found h =
      read_subgraphs-keeps u address groups _
        (add_subgraph-keeps url u address tokens (answer_for url tokens) found h)

  pub read_subgraphs-errors :
      (address : ℕ) (groups : TokensBySubgraph)
      (found : VaultsBySubgraph × List TokenDetailsErrorResponse)
      → HasDetailsError address found.1
      → HasDetailsError address (read_subgraphs query found groups).1
  unfolding read_subgraphs
  read_subgraphs-errors address [] found h = h
  read_subgraphs-errors address ((url, tokens) ∷ groups) found h =
      read_subgraphs-errors address groups _
        (add_subgraph-errors url address tokens (answer_for url tokens) found h)

  pub read_subgraphs-IsRead :
      (group : String × List TokenCfg) (token : TokenCfg) (groups : TokensBySubgraph)
      (found : VaultsBySubgraph × List TokenDetailsErrorResponse)
      → Memᴰ group groups
      → Memᴰ token group.1
      → IsRead group.0 token.address (read_subgraphs query found groups)
  unfolding read_subgraphs
  read_subgraphs-IsRead group token [] found m n = elim m [ ]
  read_subgraphs-IsRead group token ((url, tokens) ∷ groups) found (Memᴰ.tail m) n =
      read_subgraphs-IsRead group token groups _ m n
  read_subgraphs-IsRead group token ((url, tokens) ∷ groups) found (Memᴰ.head e) n =
      subst (λ u. IsRead u token.address (read_subgraphs query found ((url, tokens) ∷ groups)))
        (sym (ap (λ p. p.0) e))
        (read_subgraphs-keeps url token.address groups _ (
          add_subgraph-IsRead url token tokens (answer_for url tokens) found
            (subst (λ p. Memᴰ token p.1) e n)))
