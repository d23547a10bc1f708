-- ===== src/Order/Source.antt =====
-- src/routes/order/mod.rs: the data source that asks the raindex client, whose answers are
-- parameters, and the cache of single quotes.
use st0x_rest_api.Prelude.{
  ℕ, ◌≡◌, refl, Bool, true, false, Option, none, List, [], ◌∷◌, String, if◌then◌else◌, Result, ok,
  ◌>>=◌, map_err,
}
use st0x_rest_api.ApiError.{ApiError, internal}
use st0x_rest_api.Bytes.{ByteString}
use st0x_rest_api.Sdk.{RaindexOrder}
use st0x_rest_api.Denomination.{WrapRatioMap}
use st0x_rest_api.WrapRatio.{TokenCfg, Erc4626BatchResponse}
use st0x_rest_api.WrapRatio.Rows.{
  read_wrap_ratio_responses_for_addresses, wrap_ratio_values_from_responses,
}
use st0x_rest_api.Trades.{RaindexTrade, RaindexTradesByOrderHashResult, TimeFilter}
use st0x_rest_api.Orders.Quotes.{Quotes}
use st0x_rest_api.Orders.Cache.{CacheKey, QuoteCache, order_quote_cache_key, same_key}
use st0x_rest_api.AppCache.{get_or_try_insert, Holds, get_or_try_insert-Holds}
use st0x_rest_api.Orders.Coherence.{same_key_sound}
use st0x_rest_api.Order.{OrderDataSource, trades_of_order}

pub record OrderClient : Type 0 where
  pub get_orders : ℕ → Result String (List RaindexOrder)
  pub get_quotes : RaindexOrder → Result String Quotes
  pub get_trades_by_order_hashes :
      List ℕ → TimeFilter → Result String RaindexTradesByOrderHashResult
  pub get_remove_calldata : RaindexOrder → Result String ByteString
  pub get_all_tokens : Result String (List TokenCfg)

module _ (client : OrderClient) where
  abbrev pub fetch_quotes : RaindexOrder → Result ApiError Quotes
  fetch_quotes order =
      map_err (λ e. internal "failed to query order quotes") (client.get_quotes order)

  -- `is_enabled` of the caches is a flag.
  unfoldable pub single_order_quotes :
      Bool → QuoteCache → RaindexOrder → QuoteCache × Result ApiError Quotes
  single_order_quotes enabled cache order =
      if enabled
      then get_or_try_insert same_key cache (order_quote_cache_key order) (fetch_quotes order)
      else (cache, fetch_quotes order)

  unfoldable pub single_order_trades : RaindexOrder → Result ApiError (List RaindexTrade)
  single_order_trades order = do
    result ←
        map_err (λ e. internal "failed to query order trades")
          (client.get_trades_by_order_hashes (order.order_hash ∷ [])
            (record { start = none; end = none }))
    ok (trades_of_order order.order_hash result.trades_by_order_hash)

  -- Without a pool no ratios are read; the snapshots are persisted besides.
  module _ (read_rpc : String → List ℕ → Result String Erc4626BatchResponse)
      (parse_address : String → Option ℕ) where
    unfoldable pub ratios_for_order : Bool → List ℕ → Result ApiError WrapRatioMap
    ratios_for_order false token_addresses = ok (λ token. none)
    ratios_for_order true token_addresses = do
      tokens ← map_err (λ e. internal "failed to retrieve curated tokens") client.get_all_tokens
      responses ←
          read_wrap_ratio_responses_for_addresses read_rpc parse_address tokens token_addresses
      ok (wrap_ratio_values_from_responses responses)

    -- The data source of one request, with the cache as the request finds it.
    unfoldable pub raindex_order_data_source : Bool → QuoteCache → Bool → OrderDataSource
    raindex_order_data_source enabled cache has_pool = record {
      get_orders_by_hash =
          λ hash. map_err (λ e. internal "failed to query orders") (client.get_orders hash);
      get_order_quotes = λ order. (single_order_quotes enabled cache order).1;
      get_order_trades = single_order_trades;
      get_remove_calldata = λ order.
          map_err (λ e. internal "failed to get remove calldata")
            (client.get_remove_calldata order);
      get_wrap_ratios_for_tokens = ratios_for_order has_pool;
    }

  -- If the client answers for an order what it answers for the order's key, and the cache holds such
  -- answers, the quotes of a single order are the client's whether the cache is enabled or not, and
  -- the cache holds such answers afterwards.
  pub single_order_quotes-Holds :
      (answer : CacheKey → Result ApiError Quotes) (enabled : Bool) (cache : QuoteCache)
      (order : RaindexOrder)
      → fetch_quotes order ≡ answer (order_quote_cache_key order)
      → Holds same_key answer cache
      → ((single_order_quotes enabled cache order).1 ≡ fetch_quotes order)
        × Holds same_key answer (single_order_quotes enabled cache order).0
  unfolding single_order_quotes
  single_order_quotes-Holds answer false cache order same h = (refl, h)
  single_order_quotes-Holds answer true cache order same h =
      rw same (
        get_or_try_insert-Holds same_key answer cache (order_quote_cache_key order) same_key_sound
          h)
