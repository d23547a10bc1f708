-- ===== src/Orders/Tests.antt =====
-- The theorems on lists of orders at three orders of two chains.
use mathlib.Core.List.{Permᴰ}
use st0x_rest_api.Prelude.{
  ℕ, ◌≡◌, refl, ap, ◌∙◌, Bool, true, false, Option, none, some, List, [], ◌∷◌, if◌then◌else◌, map,
  ok, arith,
}
use st0x_rest_api.Sdk.{input, output, input_output, RaindexVault, RaindexOrder}
use st0x_rest_api.IoVaults.{pick, scan, resolve_io_vaults}
use st0x_rest_api.Floats.Toy.{toy_ops}
use st0x_rest_api.Denomination.{wrapped}
use st0x_rest_api.Orders.{OrdersListDataSource, build_pagination}
use st0x_rest_api.Orders.Quotes.{
  Quotes, OrderQuoteResult, fetch_order_quotes_grouped, get_order_quotes_for_summaries,
}
use st0x_rest_api.Orders.Cache.{
  CacheKey, QuoteCache, same_key, order_quote_cache_key, get_order_quotes_batch_for_chain,
}
use st0x_rest_api.Orders.Summaries.{
  OrdersListResponse, quote_result_to_summary, token_ref, balance_in, io_ratio_in, max_output_in,
  build_order_summary, summary_of, build_orders_list_response,
}
use st0x_rest_api.Orders.Batching.{IsConsistent, fetch_order_quotes_grouped-eq-map}
use st0x_rest_api.Orders.Active.{quote_for, get_order_quotes_for_summaries-eq-map}
use st0x_rest_api.Orders.Kind.{classify_order_type}
use st0x_rest_api.Orders.Pages.{ArePageNumbers}
use st0x_rest_api.Orders.Listed.{AreSummariesOf, build_orders_list_response-lists}
use st0x_rest_api.Orders.Coherence.{IsCoherent, get_order_quotes_batch_for_chain-answers}

abbrev vault : RaindexVault
vault = record {
  vault_id = 1;
  vault_type = some input_output;
  token = record { address = 5; name = none; symbol = some "TKN"; decimals = 18 };
  balance = 5;
  formatted_balance = "5";
}

abbrev order : ℕ → ℕ → Bool → RaindexOrder
order chain hash active = record {
  chain_id = chain;
  raindex = 9;
  order_hash = hash;
  owner = 2;
  order_bytes = [];
  active = active;
  timestamp_added = 1700000000;
  timestamp_removed = none;
  rainlang = none;
  dotrain_source = none;
  vaults_list = vault ∷ [];
  inputs_list = [];
  outputs_list = [];
  builder_deployments = [];
}

abbrev three_orders : List RaindexOrder
three_orders = order 8453 1 true ∷ order 1 2 true ∷ order 8453 3 false ∷ []

-- The quote of an order, by its key.
abbrev quotes_of : CacheKey → Quotes
quotes_of k =
    record { value = some (record { formatted_ratio = "1.5"; formatted_max_output = "10" }) } ∷ []

abbrev answer : RaindexOrder → OrderQuoteResult
answer order = ok (quotes_of (order_quote_cache_key order))

abbrev ds : OrdersListDataSource
ds = record {
  get_orders_list = λ filters page page_size. ok (three_orders, 3);
  get_order_quotes = answer;
  get_order_quotes_batch_for_chain =
      λ orders. ok (map (λ o. quotes_of (order_quote_cache_key o)) orders);
  get_wrap_ratios_for_tokens = λ tokens. ok (λ token. none);
}

abbrev swap_groups : List (List (ℕ × OrderQuoteResult)) → List (List (ℕ × OrderQuoteResult))
swap_groups [] = []
swap_groups (g ∷ []) = g ∷ []
swap_groups (g ∷ h ∷ gs) = h ∷ g ∷ gs

swap_groups-Permᴰ : (gs : List (List (ℕ × OrderQuoteResult))) → Permᴰ gs (swap_groups gs)
swap_groups-Permᴰ [] = Permᴰ.nil
swap_groups-Permᴰ (g ∷ []) = Permᴰ.cons refl Permᴰ.nil
swap_groups-Permᴰ (g ∷ h ∷ gs) = Permᴰ.swap refl refl

map-ok :
    (orders : List RaindexOrder)
    → map {B = OrderQuoteResult} ok (map (λ o. quotes_of (order_quote_cache_key o)) orders)
      ≡ map answer orders
map-ok [] = refl
map-ok (o ∷ orders) = ap (◌∷◌ (answer o)) (map-ok orders)

ds-IsConsistent : IsConsistent ds answer
ds-IsConsistent = record {
  single = λ o. refl;
  batch = λ orders quotes h l.
      let same : quotes ≡ map (λ o. quotes_of (order_quote_cache_key o)) orders = cc in
      ap (map ok) same ∙ map-ok orders;
}

fetch_order_quotes_grouped-eq-map_example :
    fetch_order_quotes_grouped ds swap_groups three_orders ≡ map answer three_orders
fetch_order_quotes_grouped-eq-map_example =
    fetch_order_quotes_grouped-eq-map answer ds swap_groups three_orders ds-IsConsistent
      swap_groups-Permᴰ

get_order_quotes_for_summaries-eq-map_example :
    get_order_quotes_for_summaries (map answer) three_orders ≡ map (quote_for answer) three_orders
get_order_quotes_for_summaries-eq-map_example =
    get_order_quotes_for_summaries-eq-map answer (map answer) three_orders (λ os. refl)

abbrev all_answers : List RaindexOrder → Option (List Quotes)
all_answers orders = some (map (λ o. quotes_of (order_quote_cache_key o)) orders)

-- The cache has the first order's quotes.
abbrev one_cached : QuoteCache
one_cached k = if same_key (8453, 9, 1) k then some (quotes_of k) else none

one_cached-IsCoherent : IsCoherent quotes_of one_cached
one_cached-IsCoherent k v h = ground arith

get_order_quotes_batch_for_chain-answers_example :
    ((get_order_quotes_batch_for_chain all_answers true one_cached three_orders).0
      ≡ ok (map (λ o. quotes_of (order_quote_cache_key o)) three_orders))
    × IsCoherent quotes_of
        (get_order_quotes_batch_for_chain all_answers true one_cached three_orders).1
get_order_quotes_batch_for_chain-answers_example =
    get_order_quotes_batch_for_chain-answers quotes_of all_answers true one_cached three_orders
      one_cached-IsCoherent (λ os. refl)

-- An order that takes the token 5 and gives the token 6, with a quote, on the second page of 41.
abbrev paid : RaindexVault
paid = record vault { vault_type = some input }

abbrev sold : RaindexVault
sold = record vault {
  vault_type = some output;
  token = record { address = 6; name = none; symbol = none; decimals = 6 };
  formatted_balance = "7";
}

abbrev priced_order : RaindexOrder
priced_order = record (order 1 2 true) { vaults_list = sold ∷ paid ∷ [] }

abbrev one_response : OrdersListResponse
one_response = record {
  orders =
      record {
        order_hash = 2;
        owner = 2;
        chain_id = 1;
        order_bytes = [];
        active = true;
        removed_at = none;
        order_type = classify_order_type priced_order;
        input_token = record { address = 5; symbol = "TKN"; decimals = 18 };
        output_token = record { address = 6; symbol = ""; decimals = 6 };
        output_vault_balance = "7";
        max_output = some "10";
        io_ratio = "1.5";
        created_at = 1700000000;
        orderbook_id = 9;
      }
      ∷ [];
  pagination = record {
    page = 2;
    page_size = 20;
    total_orders = 41;
    total_pages = 3;
    has_more = true;
  };
}

responds :
    build_orders_list_response toy_ops
      (priced_order ∷ [])
      41
      2
      20
      (answer priced_order ∷ [])
      wrapped
      (λ token. none)
    ≡ ok one_response
unfolding build_orders_list_response summary_of build_order_summary quote_result_to_summary
    token_ref balance_in io_ratio_in max_output_in resolve_io_vaults scan pick build_pagination
responds = refl

build_orders_list_response-lists_example :
    AreSummariesOf toy_ops wrapped
      (λ token. none)
      (priced_order ∷ [])
      (answer priced_order ∷ [])
      one_response.orders
    × ArePageNumbers 41 2 20 one_response.pagination
build_orders_list_response-lists_example =
    build_orders_list_response-lists toy_ops (priced_order ∷ []) 41 2 20 (answer priced_order ∷ [])
      wrapped (λ token. none) one_response responds
