-- ===== src/Orders/Listed.antt =====
-- What a response that lists orders shows of each of them.
use mathlib.Core.Path.{subst}
use st0x_rest_api.Prelude.{
  ℕ, ◌<◌, ◌^◌, ◌≡◌, refl, sym, ◌∙◌, inl, inr, true, false, Option, none, some, List, [], ◌∷◌,
  String, ◌==◌, ==_iff, lt→ltb, find, unwrap_or, length, zip, Result, ok, err, >>=-eq-ok, traverse,
  Bool-cases, arith,
}
use st0x_rest_api.ApiError.{ApiError}
use st0x_rest_api.Sdk.{TokenInfo, RaindexOrder, RaindexVault, QuoteValue}
use st0x_rest_api.Floats.{FloatOps}
use st0x_rest_api.IoVaults.{resolve_io_vaults}
use st0x_rest_api.IoVaults.Laws.{takes_input, takes_output, resolve_io_vaults_iff}
use st0x_rest_api.Denomination.{
  Denomination, WrapRatioMap, wrapped, unwrapped, convert_wrapped_amount_for_token,
  convert_wrapped_io_ratio,
}
use st0x_rest_api.Orders.Kind.{classify_order_type}
use st0x_rest_api.Orders.Quotes.{OrderQuoteResult}
use st0x_rest_api.Orders.Summaries.{
  TokenRef, OrderSummary, OrdersListResponse, token_ref, build_order_summary, balance_in,
  io_ratio_in, max_output_in, quote_result_to_summary, summary_of, build_orders_list_response,
}
use st0x_rest_api.Orders.Pages.{
  ArePageNumbers, build_pagination-ArePageNumbers, page_of, response_of_same, response_of_other,
}

-- The reference of a token: its address and decimals, and its symbol or the empty text.
abbrev pub Refers : TokenInfo → TokenRef → Type 0
Refers token ref =
    (ref.address ≡ token.address)
    × (ref.symbol ≡ elim token.symbol [ none ↦ "" | some symbol ↦ symbol ])
    × (ref.decimals ≡ token.decimals)

-- The first of the quotes that were read, if it has a value.
abbrev pub quoted : OrderQuoteResult → Option QuoteValue
quoted (ok []) = none
quoted (ok (quote ∷ quotes)) = quote.value
quoted (err e) = none

abbrev pub ratio_of : Option QuoteValue → String
ratio_of none = "-"
ratio_of (some value) = value.formatted_ratio

abbrev pub most_of : Option QuoteValue → Option String
most_of none = none
most_of (some value) = some value.formatted_max_output

module _ (ops : FloatOps) where
  -- An amount or a price of the client in the denomination of the response.
  abbrev pub IsAmountIn : Denomination → WrapRatioMap → String → ℕ → String → Type 0
  IsAmountIn wrapped ratios amount token shown = shown ≡ amount
  IsAmountIn unwrapped ratios amount token shown =
      convert_wrapped_amount_for_token ops amount token ratios ≡ ok shown

  abbrev pub IsMostIn : Denomination → WrapRatioMap → Option String → ℕ → Option String → Type 0
  IsMostIn d ratios none token shown = shown ≡ none
  IsMostIn d ratios (some amount) token shown =
      (most : String) × (shown ≡ some most) × IsAmountIn d ratios amount token most

  abbrev pub IsPriceIn : Denomination → WrapRatioMap → String → ℕ → ℕ → String → Type 0
  IsPriceIn wrapped ratios price i o shown = shown ≡ price
  IsPriceIn unwrapped ratios price i o shown =
      convert_wrapped_io_ratio ops price i o ratios ≡ ok shown

-- What the summary of an order shows, for the answer to the request for its quotes.
pub record IsSummaryOf (ops : FloatOps) (d : Denomination) (ratios : WrapRatioMap)
    (order : RaindexOrder) (quotes : OrderQuoteResult) (s : OrderSummary) : Type 0 where
  pub input : RaindexVault
  pub output : RaindexVault
  pub first_input : find (λ v. takes_input v.vault_type) order.vaults_list ≡ some input
  pub first_output : find (λ v. takes_output v.vault_type) order.vaults_list ≡ some output
  pub order_hash : s.order_hash ≡ order.order_hash
  pub owner : s.owner ≡ order.owner
  pub chain_id : s.chain_id ≡ order.chain_id
  pub order_bytes : s.order_bytes ≡ order.order_bytes
  pub active : s.active ≡ order.active
  pub orderbook_id : s.orderbook_id ≡ order.raindex
  pub order_type : s.order_type ≡ classify_order_type order
  pub not_removed : order.timestamp_removed ≡ none → s.removed_at ≡ none
  pub removed_at : (t : ℕ) → order.timestamp_removed ≡ some t → t < 2 ^ 64 → s.removed_at ≡ some t
  pub created_at : order.timestamp_added < 2 ^ 64 → s.created_at ≡ order.timestamp_added
  pub input_token : Refers input.token s.input_token
  pub output_token : Refers output.token s.output_token
  pub balance :
      order.active ≡ true
      → IsAmountIn ops d ratios output.formatted_balance output.token.address s.output_vault_balance
  pub no_balance : order.active ≡ false → s.output_vault_balance ≡ "0"
  pub io_ratio :
      IsPriceIn ops d ratios
        (ratio_of (quoted quotes))
        input.token.address
        output.token.address
        s.io_ratio
  pub max_output : IsMostIn ops d ratios (most_of (quoted quotes)) output.token.address s.max_output

quote_result_to_summary-quoted :
    (q : OrderQuoteResult)
    → ((quote_result_to_summary q).io_ratio ≡ ratio_of (quoted q))
      × ((quote_result_to_summary q).max_output ≡ most_of (quoted q))
unfolding quote_result_to_summary
quote_result_to_summary-quoted (err e) = (refl, refl)
quote_result_to_summary-quoted (ok []) = (refl, refl)
quote_result_to_summary-quoted (ok (quote ∷ quotes)) = (ground arith, ground arith)

text_or_empty :
    (symbol : Option String) → unwrap_or symbol "" ≡ elim symbol [ none ↦ "" | some s ↦ s ]
text_or_empty none = refl
text_or_empty (some s) = refl

token_ref-Refers : (token : TokenInfo) → Refers token (token_ref token)
unfolding token_ref
token_ref-Refers token = (refl, text_or_empty token.symbol, refl)

same_summary : (s t : OrderSummary) (r : Result ApiError OrderSummary) → r ≡ ok s → r ≡ ok t → s ≡ t
same_summary s t r h k = cc

module _ (ops : FloatOps) (ratios : WrapRatioMap) where
  balance_in-IsAmountIn :
      (d : Denomination) (vault : RaindexVault) (shown : String)
      → balance_in ops d vault ratios ≡ ok shown
      → IsAmountIn ops d ratios vault.formatted_balance vault.token.address shown
  unfolding balance_in
  balance_in-IsAmountIn wrapped vault shown h = cc
  balance_in-IsAmountIn unwrapped vault shown h = h

  io_ratio_in-IsPriceIn :
      (d : Denomination) (price : String) (i o : ℕ) (shown : String)
      → io_ratio_in ops d price i o ratios ≡ ok shown
      → IsPriceIn ops d ratios price i o shown
  unfolding io_ratio_in
  io_ratio_in-IsPriceIn wrapped price i o shown h = cc
  io_ratio_in-IsPriceIn unwrapped price i o shown h = h

  max_output_in-IsMostIn :
      (d : Denomination) (most : Option String) (o : ℕ) (shown : Option String)
      → max_output_in ops d most o ratios ≡ ok shown
      → IsMostIn ops d ratios most o shown
  unfolding max_output_in
  max_output_in-IsMostIn wrapped none o shown h = cc
  max_output_in-IsMostIn wrapped (some amount) o shown h = (amount, cc, refl)
  max_output_in-IsMostIn unwrapped none o shown h = cc
  max_output_in-IsMostIn unwrapped (some amount) o shown h =
      let (converted, made, e) =
        >>=-eq-ok (convert_wrapped_amount_for_token ops amount o ratios) _ h in
      (converted, cc, made)

  summary_of-IsSummaryOf :
      (d : Denomination) (order : RaindexOrder) (quotes : OrderQuoteResult) (s : OrderSummary)
      → summary_of ops d ratios (order, quotes) ≡ ok s
      → IsSummaryOf ops d ratios order quotes s
  unfolding summary_of build_order_summary
  summary_of-IsSummaryOf d order quotes s h =
      let summary = quote_result_to_summary quotes in
      let ((i, o), resolved, h1) = >>=-eq-ok (resolve_io_vaults order) _ h in
      let (balance, balanced, h2) = >>=-eq-ok (balance_in ops d o ratios) _ h1 in
      let (ratio, priced, h3) =
        >>=-eq-ok (io_ratio_in ops d summary.io_ratio i.token.address o.token.address ratios) _
          h2 in
      let (most, limited, h4) =
        >>=-eq-ok (max_output_in ops d summary.max_output o.token.address ratios) _ h3 in
      let (found_input, found_output) = (resolve_io_vaults_iff order i o).0 resolved in
      let (shown_ratio, shown_most) = quote_result_to_summary-quoted quotes in
      subst (λ t. IsSummaryOf ops d ratios order quotes t) (same_summary _ s _ refl h4)
        (record {
          input = i;
          output = o;
          first_input = found_input;
          first_output = found_output;
          order_hash = refl;
          owner = refl;
          chain_id = refl;
          order_bytes = refl;
          active = refl;
          orderbook_id = refl;
          order_type = refl;
          not_removed = λ e. rw e refl;
          removed_at = λ t e small. rw e (rw (lt→ltb t (2 ^ 64) small) refl);
          created_at = λ small. rw (lt→ltb order.timestamp_added (2 ^ 64) small) refl;
          input_token = token_ref-Refers i.token;
          output_token = token_ref-Refers o.token;
          balance = λ e. rw e (balance_in-IsAmountIn d o balance balanced);
          no_balance = λ e. rw e refl;
          io_ratio =
              subst (λ p. IsPriceIn ops d ratios p i.token.address o.token.address ratio)
                shown_ratio
                (io_ratio_in-IsPriceIn d summary.io_ratio i.token.address o.token.address ratio
                  priced);
          max_output =
              subst (λ m. IsMostIn ops d ratios m o.token.address most) shown_most
                (max_output_in-IsMostIn d summary.max_output o.token.address most limited);
        })

-- One summary for each order and the answer to its request for quotes.
abbrev pub AreSummariesOf :
    (ops : FloatOps)
    → Denomination
    → WrapRatioMap
    → List RaindexOrder
    → List OrderQuoteResult
    → List OrderSummary
    → Type 0
AreSummariesOf ops d ratios [] results [] = results ≡ []
AreSummariesOf ops d ratios [] results (s ∷ summaries) = ⊥
AreSummariesOf ops d ratios (o ∷ orders) [] summaries = ⊥
AreSummariesOf ops d ratios (o ∷ orders) (r ∷ results) [] = ⊥
AreSummariesOf ops d ratios (o ∷ orders) (r ∷ results) (s ∷ summaries) =
    IsSummaryOf ops d ratios o r s × AreSummariesOf ops d ratios orders results summaries

no_results : (results : List OrderQuoteResult) → length results ≡ 0 → results ≡ []
no_results [] h = refl
no_results (r ∷ results) h = absurd (omega (arith, h))

traverse-AreSummariesOf :
    (ops : FloatOps) (d : Denomination) (ratios : WrapRatioMap) (orders : List RaindexOrder)
    (results : List OrderQuoteResult) (summaries : List OrderSummary)
    → length results ≡ length orders
    → traverse (summary_of ops d ratios) (zip orders results) ≡ ok summaries
    → AreSummariesOf ops d ratios orders results summaries
traverse-AreSummariesOf ops d ratios [] results [] l h = no_results results l
traverse-AreSummariesOf ops d ratios [] results (s ∷ summaries) l h = cc
traverse-AreSummariesOf ops d ratios (o ∷ orders) [] summaries l h = absurd (omega (arith, l))
traverse-AreSummariesOf ops d ratios (o ∷ orders) (r ∷ results) summaries l h =
    let (s, here, h1) = >>=-eq-ok (summary_of ops d ratios (o, r)) _ h in
    let (rest, later, h2) =
      >>=-eq-ok (traverse (summary_of ops d ratios) (zip orders results)) _ h1 in
    let same : s ∷ rest ≡ summaries = cc in
    subst (λ ss. AreSummariesOf ops d ratios (o ∷ orders) (r ∷ results) ss) same
      (
        summary_of-IsSummaryOf ops ratios d o r s here,
        traverse-AreSummariesOf ops d ratios orders results rest (omega (arith, l)) later,
      )

-- A response has one summary for each order, in their order. A summary has the order's own fields
-- (its times where they fit into 64 bits), the tokens of its first vault for input and its first one
-- for output, the balance of the latter where the order is active and "0" where it is not, and the
-- price and the limit of the order's first quote, or "-" and none without one. Balance, price and
-- limit are in the denomination asked for. The page numbers are those asked for, with as many pages
-- as it takes to hold all orders, or none where a page holds no order, and there is a next page
-- exactly where the full pages up to this one do not hold all orders.
pub build_orders_list_response-lists :
    (ops : FloatOps) (orders : List RaindexOrder) (total_count page page_size : ℕ)
    (results : List OrderQuoteResult) (d : Denomination) (ratios : WrapRatioMap)
    (response : OrdersListResponse)
    → build_orders_list_response ops orders total_count page page_size results d ratios
      ≡ ok response
    → AreSummariesOf ops d ratios orders results response.orders
      × ArePageNumbers total_count page page_size response.pagination
build_orders_list_response-lists ops orders total_count page page_size results d ratios response h =
    elim (Bool-cases (length results == length orders)) [
      | inl same ↦
          let (summaries, made, e) =
            >>=-eq-ok (traverse (summary_of ops d ratios) (zip orders results)) _ (
              sym (response_of_same ops orders total_count page page_size results d ratios same)
              ∙ h) in
          let is_it : page_of summaries total_count page page_size ≡ response = cc in
          subst
            (λ (r : OrdersListResponse).
              AreSummariesOf ops d ratios orders results r.orders
              × ArePageNumbers total_count page page_size r.pagination)
            is_it
            (
              traverse-AreSummariesOf ops d ratios orders results summaries ((==_iff _ _).0 same)
                  made,
              build_pagination-ArePageNumbers total_count page page_size,
            )
      | inr other ↦
          cc (h, response_of_other ops orders total_count page page_size results d ratios other)
    ]
