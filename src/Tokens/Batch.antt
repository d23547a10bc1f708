-- ===== src/Tokens/Batch.antt =====
-- The route of all ratios leaves no wrapped token out.
use mathlib.Core.List.{Memᴰ}
use mathlib.Core.List.Memᴰ
use mathlib.Core.Path.{subst}
use st0x_rest_api.Prelude.{
  ℕ, ◌≡◌, refl, sym, ap, ◌∙◌, ◌⊎◌, inl, inr, true, Option, some, List, [], ◌∷◌, String, keep,
  Result, ok, err, >>=-eq-ok, get_elem?_of_mem, mem-keep,
}
use st0x_rest_api.WrapRatio.{
  TokenCfg, Erc4626BatchResponse, WrapRatioResponse, WrapRatioLookupError, is_st0x_token,
  unwrapped_address, from_batch_response, find_wrap_ratio_item,
}
use st0x_rest_api.WrapRatio.Rows.{
  WrapRatioBatchInput, WrapRatioBatchGroupResponse, inputs_by_chain, inputs_at, read_groups,
  read_wrap_ratios_batch,
}
use st0x_rest_api.WrapRatio.Laws.{
  IsRowOf, IsRatioOf, find_wrap_ratio_item-Mem, build_wrap_ratio_response-addresses,
  mem-read_groups, inputs_by_chain-In, mem-inputs_at,
}
use st0x_rest_api.Tokens.{
  WrapRatioErrorResponse, WrapRatioBatchResponse, registry_tokens, error_row, sort_input,
  sort_inputs, lookup_row, add_row, add_rows, add_groups, get_wrap_ratios,
}

-- An error of the response names the token.
abbrev pub HasError : ℕ → List WrapRatioErrorResponse → Type 0
HasError address errors = (e : WrapRatioErrorResponse) × Memᴰ e errors × (e.share_address ≡ address)

abbrev HasRow : WrapRatioBatchInput → List WrapRatioResponse → Type 0
HasRow input rows = (row : WrapRatioResponse) × Memᴰ row rows × IsRowOf input row

abbrev Answered : WrapRatioBatchInput → WrapRatioBatchResponse → Type 0
Answered input answer = HasRow input answer.data' ⊎ HasError input.token.address answer.errors

lookup_row-IsRowOf :
    (response : Erc4626BatchResponse) (input : WrapRatioBatchInput) (row : WrapRatioResponse)
    → lookup_row response input ≡ ok row
    → IsRowOf input row
unfolding lookup_row
lookup_row-IsRowOf response input row h =
    let (item, found, built) =
      >>=-eq-ok (find_wrap_ratio_item response.items input.token.address) _ h in
    let (m, same) = find_wrap_ratio_item-Mem response.items input.token.address item found in
    let (share, asset) =
      build_wrap_ratio_response-addresses item input.expected_asset_address
        (from_batch_response response) row built in
    (share ∙ same, asset)

-- A step of the loop answers its input and keeps the answers before it.
add_row-Answered :
    (input : WrapRatioBatchInput) (r : Result WrapRatioLookupError WrapRatioResponse)
    (answer : WrapRatioBatchResponse)
    → ((row : WrapRatioResponse) → r ≡ ok row → IsRowOf input row)
    → Answered input (add_row input r answer)
unfolding error_row
add_row-Answered input (ok row) answer h =
    inl (row, Memᴰ.append_right answer.data' (Memᴰ.head refl), h row refl)
add_row-Answered input (err e) answer h =
    inr (error_row input.token.address e, Memᴰ.append_right answer.errors (Memᴰ.head refl), refl)

add_row-keeps :
    (input other : WrapRatioBatchInput) (r : Result WrapRatioLookupError WrapRatioResponse)
    (answer : WrapRatioBatchResponse)
    → Answered other answer
    → Answered other (add_row input r answer)
add_row-keeps input other (ok row) answer (inl (x, m, e)) =
    inl (x, Memᴰ.append_left (row ∷ []) m, e)
add_row-keeps input other (ok row) answer (inr h) = inr h
add_row-keeps input other (err e) answer (inl h) = inl h
add_row-keeps input other (err e) answer (inr (x, m, k)) =
    inr (x, Memᴰ.append_left (error_row input.token.address e ∷ []) m, k)

add_row-errors :
    (input : WrapRatioBatchInput) (r : Result WrapRatioLookupError WrapRatioResponse)
    {e : WrapRatioErrorResponse} (answer : WrapRatioBatchResponse)
    → Memᴰ e answer.errors
    → Memᴰ e (add_row input r answer).errors
add_row-errors input (ok row) answer m = m
add_row-errors input (err f) answer m = Memᴰ.append_left (error_row input.token.address f ∷ []) m

add_rows-keeps :
    (response : Erc4626BatchResponse) (inputs : List WrapRatioBatchInput)
    (other : WrapRatioBatchInput) (answer : WrapRatioBatchResponse)
    → Answered other answer
    → Answered other (add_rows response answer inputs)
unfolding add_rows
add_rows-keeps response [] other answer h = h
add_rows-keeps response (input ∷ inputs) other answer h =
    add_rows-keeps response inputs other _
      (add_row-keeps input other (lookup_row response input) answer h)

add_rows-Answered :
    (response : Erc4626BatchResponse) (inputs : List WrapRatioBatchInput)
    (input : WrapRatioBatchInput) (answer : WrapRatioBatchResponse)
    → Memᴰ input inputs
    → Answered input (add_rows response answer inputs)
unfolding add_rows
add_rows-Answered response [] input answer m = elim m [ ]
add_rows-Answered response (x ∷ inputs) input answer (Memᴰ.tail m) =
    add_rows-Answered response inputs input _ m
add_rows-Answered response (x ∷ inputs) input answer (Memᴰ.head e) =
    add_rows-keeps response inputs input _ (
      subst (λ i. Answered i (add_row x (lookup_row response x) answer)) (sym e)
        (add_row-Answered x (lookup_row response x) answer (lookup_row-IsRowOf response x)))

add_groups-keeps :
    (inputs : List WrapRatioBatchInput) (groups : List WrapRatioBatchGroupResponse)
    (input : WrapRatioBatchInput) (answer : WrapRatioBatchResponse)
    → Answered input answer
    → Answered input (add_groups inputs answer groups)
unfolding add_groups
add_groups-keeps inputs [] input answer h = h
add_groups-keeps inputs (group ∷ groups) input answer h =
    add_groups-keeps inputs groups input _ (add_rows-keeps group.response _ input answer h)

add_groups-Answered :
    (inputs : List WrapRatioBatchInput) (groups : List WrapRatioBatchGroupResponse)
    (group : WrapRatioBatchGroupResponse) (input : WrapRatioBatchInput)
    (answer : WrapRatioBatchResponse)
    → Memᴰ group groups
    → Memᴰ input (inputs_at inputs group.input_indices)
    → Answered input (add_groups inputs answer groups)
unfolding add_groups
add_groups-Answered inputs [] group input answer m n = elim m [ ]
add_groups-Answered inputs (g ∷ groups) group input answer (Memᴰ.tail m) n =
    add_groups-Answered inputs groups group input _ m n
add_groups-Answered inputs (g ∷ groups) group input answer (Memᴰ.head e) n =
    let n' : Memᴰ input (inputs_at inputs g.input_indices) =
      subst (λ h. Memᴰ input (inputs_at inputs h.input_indices)) e n in
    add_groups-keeps inputs groups input _ (add_rows-Answered g.response _ input answer n')

-- The errors before the loop stay.
add_rows-errors :
    (response : Erc4626BatchResponse) (inputs : List WrapRatioBatchInput)
    {e : WrapRatioErrorResponse} (answer : WrapRatioBatchResponse)
    → Memᴰ e answer.errors
    → Memᴰ e (add_rows response answer inputs).errors
unfolding add_rows
add_rows-errors response [] answer m = m
add_rows-errors response (input ∷ inputs) answer m =
    add_rows-errors response inputs _ (add_row-errors input (lookup_row response input) answer m)

add_groups-errors :
    (inputs : List WrapRatioBatchInput) (groups : List WrapRatioBatchGroupResponse)
    {e : WrapRatioErrorResponse} (answer : WrapRatioBatchResponse)
    → Memᴰ e answer.errors
    → Memᴰ e (add_groups inputs answer groups).errors
unfolding add_groups
add_groups-errors inputs [] answer m = m
add_groups-errors inputs (group ∷ groups) answer m =
    add_groups-errors inputs groups _ (add_rows-errors group.response _ answer m)

-- What the first loop makes of a token.
abbrev Sorted :
    (String → Option ℕ) → TokenCfg → List WrapRatioBatchInput × List WrapRatioErrorResponse → Type 0
Sorted parse_address token sorted =
    ((input : WrapRatioBatchInput) × Memᴰ input sorted.0
      × (input.token ≡ token)
      × (unwrapped_address parse_address token ≡ ok input.expected_asset_address))
    ⊎ HasError token.address sorted.1

sort_input-Sorted :
    (parse_address : String → Option ℕ) (token : TokenCfg) (r : Result WrapRatioLookupError ℕ)
    (sorted : List WrapRatioBatchInput × List WrapRatioErrorResponse)
    → unwrapped_address parse_address token ≡ r
    → Sorted parse_address token (sort_input token r sorted)
unfolding error_row
sort_input-Sorted parse_address token (ok expected) sorted h =
    inl (record { token = token; expected_asset_address = expected }, Memᴰ.head refl, refl, h)
sort_input-Sorted parse_address token (err e) sorted h =
    inr (error_row token.address e, Memᴰ.head refl, refl)

sort_input-keeps :
    (parse_address : String → Option ℕ) (token other : TokenCfg) (r : Result WrapRatioLookupError ℕ)
    (sorted : List WrapRatioBatchInput × List WrapRatioErrorResponse)
    → Sorted parse_address other sorted
    → Sorted parse_address other (sort_input token r sorted)
sort_input-keeps parse_address token other (ok expected) sorted (inl (i, m, e, f)) =
    inl (i, Memᴰ.tail m, e, f)
sort_input-keeps parse_address token other (ok expected) sorted (inr h) = inr h
sort_input-keeps parse_address token other (err e) sorted (inl h) = inl h
sort_input-keeps parse_address token other (err e) sorted (inr (x, m, k)) = inr (x, Memᴰ.tail m, k)

sort_inputs-Sorted :
    (parse_address : String → Option ℕ) (token : TokenCfg) (tokens : List TokenCfg)
    → Memᴰ token tokens
    → Sorted parse_address token (sort_inputs parse_address tokens)
unfolding sort_inputs
sort_inputs-Sorted parse_address token [] m = elim m [ ]
sort_inputs-Sorted parse_address token (x ∷ tokens) (Memᴰ.head e) =
    subst (λ t. Sorted parse_address t (sort_inputs parse_address (x ∷ tokens))) (sym e)
      (sort_input-Sorted parse_address x (unwrapped_address parse_address x)
        (sort_inputs parse_address tokens) refl)
sort_inputs-Sorted parse_address token (x ∷ tokens) (Memᴰ.tail m) =
    sort_input-keeps parse_address x token (unwrapped_address parse_address x) _
      (sort_inputs-Sorted parse_address token tokens m)

-- A successful answer has, for every wrapped token of the registry, a ratio with the token's
-- address and the asset that the registry names, or an error with the token's address.
pub get_wrap_ratios-answers :
    (read_rpc : String → List ℕ → Result String Erc4626BatchResponse)
    (parse_address : String → Option ℕ) (tokens : List TokenCfg) (answer : WrapRatioBatchResponse)
    (token : TokenCfg)
    → get_wrap_ratios read_rpc parse_address (some tokens) ≡ ok answer
    → Memᴰ token tokens
    → is_st0x_token token ≡ true
    → ((row : WrapRatioResponse) × Memᴰ row answer.data' × IsRatioOf parse_address token row)
      ⊎ HasError token.address answer.errors
unfolding get_wrap_ratios registry_tokens read_wrap_ratios_batch
get_wrap_ratios-answers read_rpc parse_address tokens answer token h m wanted =
    let sorted = sort_inputs parse_address (keep is_st0x_token tokens) in
    let (groups, read, made) =
      >>=-eq-ok (read_groups read_rpc sorted.0 (inputs_by_chain sorted.0)) _ h in
    let start : WrapRatioBatchResponse = record { data' = []; errors = sorted.1 } in
    let same : add_groups sorted.0 start groups ≡ answer = cc in
    subst
      (λ (a : WrapRatioBatchResponse).
        ((row : WrapRatioResponse) × Memᴰ row a.data' × IsRatioOf parse_address token row)
        ⊎ HasError token.address a.errors)
      same
      (elim (sort_inputs-Sorted parse_address token (keep is_st0x_token tokens)
        (mem-keep is_st0x_token tokens m wanted)) [
          | inl (input, n, of_token, expected) ↦
              let (i, found) = get_elem?_of_mem sorted.0 n in
              let (group, g, place) =
                mem-read_groups read_rpc sorted.0 (inputs_by_chain sorted.0) groups read
                  (inputs_by_chain-In sorted.0 i input found) found in
              let asked = mem-inputs_at sorted.0 group.input_indices place found in
              elim (add_groups-Answered sorted.0 groups group input start g asked) [
                | inl (row, k, (share, asset)) ↦
                    inl
                      (row, k, (share ∙ ap (λ t. t.address) of_token, expected ∙ ap ok (sym asset)))
                | inr (e, k, share) ↦ inr (e, k, share ∙ ap (λ t. t.address) of_token)
              ]
          | inr (e, n, share) ↦ inr (e, add_groups-errors sorted.0 groups start n, share)
        ])
