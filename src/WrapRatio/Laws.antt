-- ===== src/WrapRatio/Laws.antt =====
-- The rows of ratios are those of the registry's wrapped tokens that were asked for.
use mathlib.Core.List.{Memᴰ}
use mathlib.Core.List.Memᴰ
use st0x_rest_api.Prelude.{
  ℕ, true, ◌≡◌, refl, sym, ap, ◌∙◌, inl, inr, Option, some, List, [], ◌∷◌, ◌++◌, String, ◌==◌,
  ==_iff, map, keep, get_elem?, Result, ok, err, >>=-eq-ok, Option-cases, map_err, traverse,
  enumerate_from, In, group_from-In, of_mem-keep, mem-keep, mem-traverse, of_mem-traverse,
  get_elem?_of_mem, mem_of_get_elem?, enumerate_of_get_elem?, arith,
}
use st0x_rest_api.ApiError.{ApiError, internal}
use st0x_rest_api.WrapRatio.{
  TokenCfg, Erc4626BatchItem, Erc4626BatchResponse, WrapRatioMetadata, WrapRatioResponse,
  WrapRatioLookupError, into_api_error, unwrapped_address, from_batch_response, one_item,
  find_wrap_ratio_item, build_wrap_ratio_response,
}
use st0x_rest_api.WrapRatio.Rows.{
  WrapRatioBatchInput, WrapRatioBatchGroupResponse, inputs_by_chain, inputs_at, read_group,
  read_groups, read_wrap_ratios_batch, row_of, rows_of, batch_share_ratios, input_of, is_wanted,
  read_wrap_ratio_responses_for_addresses,
}

map_err-eq-ok :
    {A : Type 0} (f : WrapRatioLookupError → ApiError) (r : Result WrapRatioLookupError A) {a : A}
    → map_err f r ≡ ok a
    → r ≡ ok a
map_err-eq-ok f (ok x) h = cc
map_err-eq-ok f (err e) h = cc

one_item-Mem :
    (items : List Erc4626BatchItem) (item : Erc4626BatchItem)
    → one_item items ≡ ok item
    → Memᴰ item items
unfolding one_item
one_item-Mem [] item h = cc
one_item-Mem (x ∷ []) item h = Memᴰ.head (cc)
one_item-Mem (x ∷ y ∷ items) item h = cc

-- The item that is found is one of the batch, for the address.
pub find_wrap_ratio_item-Mem :
    (items : List Erc4626BatchItem) (address : ℕ) (item : Erc4626BatchItem)
    → find_wrap_ratio_item items address ≡ ok item
    → Memᴰ item items × (item.vault_address ≡ address)
unfolding find_wrap_ratio_item
find_wrap_ratio_item-Mem items address item h =
    let (m, k) = of_mem-keep (λ i. i.vault_address == address) items (one_item-Mem _ item h) in
    (m, (==_iff _ _).0 k)

pub build_wrap_ratio_response-addresses :
    (item : Erc4626BatchItem) (expected : ℕ) (metadata : WrapRatioMetadata)
    (row : WrapRatioResponse)
    → build_wrap_ratio_response item expected metadata ≡ ok row
    → (row.share_address ≡ item.vault_address) × (row.asset_address ≡ expected)
unfolding build_wrap_ratio_response
build_wrap_ratio_response-addresses item expected metadata row h = ground arith

-- The row of an input has the addresses of the input.
abbrev pub IsRowOf : WrapRatioBatchInput → WrapRatioResponse → Type 0
IsRowOf input row =
    (row.share_address ≡ input.token.address) × (row.asset_address ≡ input.expected_asset_address)

row_of-IsRowOf :
    (response : Erc4626BatchResponse) (input : WrapRatioBatchInput) (row : WrapRatioResponse)
    → row_of response input ≡ ok row
    → IsRowOf input row
unfolding row_of
row_of-IsRowOf response input row h =
    let (item, found, built) =
      >>=-eq-ok (find_wrap_ratio_item response.items input.token.address) _
        (map_err-eq-ok into_api_error _ h) in
    let (m, same) = find_wrap_ratio_item-Mem response.items input.token.address item found in
    let (share, asset) =
      build_wrap_ratio_response-addresses item input.expected_asset_address
        (from_batch_response response) row built in
    (share ∙ same, asset)

-- The inputs at some indices.
of_mem-inputs_at :
    {input : WrapRatioBatchInput} (inputs : List WrapRatioBatchInput) (indices : List ℕ)
    → Memᴰ input (inputs_at inputs indices)
    → Memᴰ input inputs
of_mem-inputs_at inputs [] m = elim m [ ]
of_mem-inputs_at {input} inputs (i ∷ indices) m = elim (Option-cases (get_elem? inputs i)) [
  | inl missing ↦
      let m' : Memᴰ input (inputs_at inputs indices) = rw missing at m in
      of_mem-inputs_at inputs indices m'
  | inr (x, found) ↦
      let m' : Memᴰ input (x ∷ inputs_at inputs indices) = rw found at m in
      elim m' [
        | Memᴰ.head e ↦ mem_of_get_elem? inputs i (found ∙ ap some (sym e))
        | Memᴰ.tail n ↦ of_mem-inputs_at inputs indices n
      ]
]

pub mem-inputs_at :
    {input : WrapRatioBatchInput} {i : ℕ} (inputs : List WrapRatioBatchInput) (indices : List ℕ)
    → Memᴰ i indices
    → get_elem? inputs i ≡ some input
    → Memᴰ input (inputs_at inputs indices)
mem-inputs_at inputs [] m h = elim m [ ]
mem-inputs_at inputs (j ∷ indices) (Memᴰ.head e) h =
    let found : get_elem? inputs j ≡ some _ = ap (get_elem? inputs) (sym e) ∙ h in
    rw found (Memᴰ.head refl)
mem-inputs_at inputs (j ∷ indices) (Memᴰ.tail m) h = elim (Option-cases (get_elem? inputs j)) [
  | inl missing ↦ rw missing (mem-inputs_at inputs indices m h)
  | inr (x, found) ↦ rw found (Memᴰ.tail (mem-inputs_at inputs indices m h))
]

-- Every row belongs to an input, and every input of a group that was read has a row.
of_mem-rows_of :
    {row : WrapRatioResponse} (inputs : List WrapRatioBatchInput)
    (groups : List WrapRatioBatchGroupResponse) (rows : List WrapRatioResponse)
    → rows_of inputs groups ≡ ok rows
    → Memᴰ row rows
    → (input : WrapRatioBatchInput) × Memᴰ input inputs × IsRowOf input row
unfolding rows_of
of_mem-rows_of {row} inputs [] rows h m =
    let none_left : rows ≡ [] = cc in let m' : Memᴰ row [] = rw none_left at m in elim m' [ ]
of_mem-rows_of {row} inputs (group ∷ groups) rows h m =
    let (here, h1, h2) =
      >>=-eq-ok (traverse (row_of group.response) (inputs_at inputs group.input_indices)) _ h in
    let (later, h3, h4) = >>=-eq-ok (rows_of inputs groups) _ h2 in
    let same : rows ≡ here ++ later = cc in
    let m' : Memᴰ row (here ++ later) = rw same at m in
    elim (Memᴰ.append_cases here m') [
      | inl n ↦
          let (input, k, e) = of_mem-traverse (row_of group.response) _ here h1 n in
          (input, of_mem-inputs_at inputs group.input_indices k, row_of-IsRowOf _ input row e)
      | inr n ↦ of_mem-rows_of inputs groups later h3 n
    ]

mem-rows_of :
    {group : WrapRatioBatchGroupResponse} {input : WrapRatioBatchInput}
    (inputs : List WrapRatioBatchInput) (groups : List WrapRatioBatchGroupResponse)
    (rows : List WrapRatioResponse)
    → rows_of inputs groups ≡ ok rows
    → Memᴰ group groups
    → Memᴰ input (inputs_at inputs group.input_indices)
    → (row : WrapRatioResponse) × Memᴰ row rows × IsRowOf input row
unfolding rows_of
mem-rows_of inputs [] rows h m n = elim m [ ]
mem-rows_of {group} {input} inputs (g ∷ groups) rows h m n =
    let (here, h1, h2) =
      >>=-eq-ok (traverse (row_of g.response) (inputs_at inputs g.input_indices)) _ h in
    let (later, h3, h4) = >>=-eq-ok (rows_of inputs groups) _ h2 in
    let same : here ++ later ≡ rows = cc in
    elim m [
      | Memᴰ.head e ↦
          let n' : Memᴰ input (inputs_at inputs g.input_indices) = rw e at n in
          let (row, k, f) = mem-traverse (row_of g.response) _ here h1 n' in
          (row, rw⁻¹ same (Memᴰ.append_left later k), row_of-IsRowOf _ input row f)
      | Memᴰ.tail t ↦
          let (row, k, f) = mem-rows_of inputs groups later h3 t n in
          (row, rw⁻¹ same (Memᴰ.append_right here k), f)
    ]

-- A group that has an input is read.
read_group-cons :
    (read_rpc : String → List ℕ → Result String Erc4626BatchResponse) (indices : List ℕ)
    (inputs : List WrapRatioBatchInput) (groups : List WrapRatioBatchGroupResponse)
    {input : WrapRatioBatchInput}
    → read_group read_rpc indices inputs ≡ ok groups
    → Memᴰ input inputs
    → (group : WrapRatioBatchGroupResponse) × Memᴰ group groups × (group.input_indices ≡ indices)
unfolding read_group
read_group-cons read_rpc indices [] groups h m = elim m [ ]
read_group-cons read_rpc indices (x ∷ inputs) groups h m =
    let (response, h1, h2) =
      >>=-eq-ok
        (map_err (λ error. internal "failed to read ERC4626 ratios")
          (batch_share_ratios read_rpc x.token.rpcs
            (map (λ input. input.token.address) (x ∷ inputs))))
        _ h in
    let same : record { input_indices = indices; response = response } ∷ [] ≡ groups = cc in
    (record { input_indices = indices; response = response }, rw⁻¹ same (Memᴰ.head refl), refl)

pub mem-read_groups :
    (read_rpc : String → List ℕ → Result String Erc4626BatchResponse)
    (inputs : List WrapRatioBatchInput) (m : List (ℕ × List ℕ))
    (groups : List WrapRatioBatchGroupResponse) {i : ℕ} {input : WrapRatioBatchInput}
    → read_groups read_rpc inputs m ≡ ok groups
    → In i m
    → get_elem? inputs i ≡ some input
    → (group : WrapRatioBatchGroupResponse) × Memᴰ group groups × Memᴰ i group.input_indices
unfolding read_groups
mem-read_groups read_rpc inputs [] groups h d found = elim d [ ]
mem-read_groups read_rpc inputs ((chain, indices) ∷ m) groups {i} h d found =
    let (here, h1, h2) = >>=-eq-ok (read_group read_rpc indices (inputs_at inputs indices)) _ h in
    let (later, h3, h4) = >>=-eq-ok (read_groups read_rpc inputs m) _ h2 in
    let same : here ++ later ≡ groups = cc in
    elim d [
      | inl k ↦
          let (group, n, e) =
            read_group-cons read_rpc indices (inputs_at inputs indices) here h1
              (mem-inputs_at inputs indices k found) in
          (group, rw⁻¹ same (Memᴰ.append_left later n), rw e k)
      | inr k ↦
          let (group, n, e) = mem-read_groups read_rpc inputs m later h3 k found in
          (group, rw⁻¹ same (Memᴰ.append_right here n), e)
    ]

mem-places :
    {i : ℕ} {input : WrapRatioBatchInput} (xs : List (ℕ × WrapRatioBatchInput))
    → Memᴰ (i, input) xs
    → Memᴰ i (map (λ p. p.0) xs)
mem-places [] m = elim m [ ]
mem-places (x ∷ xs) (Memᴰ.head e) = Memᴰ.head (ap (λ p. p.0) e)
mem-places (x ∷ xs) (Memᴰ.tail m) = Memᴰ.tail (mem-places xs m)

pub inputs_by_chain-In :
    (inputs : List WrapRatioBatchInput) (i : ℕ) (input : WrapRatioBatchInput)
    → get_elem? inputs i ≡ some input
    → In i (inputs_by_chain inputs)
unfolding inputs_by_chain
inputs_by_chain-In inputs i input h =
    group_from-In (λ p. p.1.token.chain_id) (λ p. p.0) i [] (enumerate_from 0 inputs)
      (inl (mem-places _ (enumerate_of_get_elem? 0 i input inputs h i (omega arith))))

module _ (parse_address : String → Option ℕ) where
  -- The input of a token has the token and its registered asset.
  input_of-eq :
      (token : TokenCfg) (input : WrapRatioBatchInput)
      → input_of parse_address token ≡ ok input
      → (input.token ≡ token)
        × (unwrapped_address parse_address token ≡ ok input.expected_asset_address)
  unfolding input_of
  input_of-eq token input h =
      let (expected, h1, h2) =
        >>=-eq-ok (map_err into_api_error (unwrapped_address parse_address token)) _ h in
      let e = map_err-eq-ok into_api_error (unwrapped_address parse_address token) h1 in (cc, cc)

  -- The row of a token: its address and its registered asset.
  abbrev pub IsRatioOf : TokenCfg → WrapRatioResponse → Type 0
  IsRatioOf token row =
      (row.share_address ≡ token.address)
      × (unwrapped_address parse_address token ≡ ok row.asset_address)

  IsRowOf-IsRatioOf :
      (token : TokenCfg) (input : WrapRatioBatchInput) (row : WrapRatioResponse)
      → input_of parse_address token ≡ ok input
      → IsRowOf input row
      → IsRatioOf token row
  IsRowOf-IsRatioOf token input row h (share, asset) =
      let (same, expected) = input_of-eq token input h in
      (share ∙ ap (λ t. t.address) same, expected ∙ ap ok (sym asset))

-- A successful reading has a row for each wrapped token of the registry that was asked for, with
-- the token's address and the asset that the registry names, and every row is such a token's.
pub read_wrap_ratio_responses_for_addresses-rows :
    (read_rpc : String → List ℕ → Result String Erc4626BatchResponse)
    (parse_address : String → Option ℕ) (tokens : List TokenCfg) (addresses : List ℕ)
    (rows : List WrapRatioResponse)
    → read_wrap_ratio_responses_for_addresses read_rpc parse_address tokens addresses ≡ ok rows
    → ((token : TokenCfg)
        → Memᴰ token tokens
        → is_wanted addresses token ≡ true
        → (row : WrapRatioResponse) × Memᴰ row rows × IsRatioOf parse_address token row)
      × ((row : WrapRatioResponse)
          → Memᴰ row rows
          → (token : TokenCfg) × Memᴰ token tokens
            × (is_wanted addresses token ≡ true)
            × IsRatioOf parse_address token row)
unfolding read_wrap_ratio_responses_for_addresses read_wrap_ratios_batch
read_wrap_ratio_responses_for_addresses-rows read_rpc parse_address tokens addresses rows h =
    let wanted = is_wanted addresses in
    let (inputs, h1, h2) = >>=-eq-ok (traverse (input_of parse_address) (keep wanted tokens)) _ h in
    let (groups, h3, h4) = >>=-eq-ok (read_groups read_rpc inputs (inputs_by_chain inputs)) _ h2 in
    (
      (λ token m asked.
          let (input, n, made) =
            mem-traverse (input_of parse_address) (keep wanted tokens) inputs h1
              (mem-keep wanted tokens m asked) in
          let (i, found) = get_elem?_of_mem inputs n in
          let (group, g, place) =
            mem-read_groups read_rpc inputs (inputs_by_chain inputs) groups h3
              (inputs_by_chain-In inputs i input found) found in
          let (row, k, e) =
            mem-rows_of inputs groups rows h4 g
              (mem-inputs_at inputs group.input_indices place found) in
          (row, k, IsRowOf-IsRatioOf parse_address token input row made e)),
      (λ row m.
          let (input, n, e) = of_mem-rows_of inputs groups rows h4 m in
          let (token, k, made) =
            of_mem-traverse (input_of parse_address) (keep wanted tokens) inputs h1 n in
          let (t, asked) = of_mem-keep wanted tokens k in
          (token, t, asked, IsRowOf-IsRatioOf parse_address token input row made e)),
    )
