-- ===== src/Orders/Cache.antt =====
-- src/routes/orders/mod.rs: the quotes of a chain's orders, answered from the cache where it has
-- them. The cache is src/cache.rs's, at one moment: a map that is written through.
use st0x_rest_api.Prelude.{
  ℕ, Bool, true, false, Option, none, some, List, [], ◌∷◌, ◌==◌, if◌then◌else◌, not, length, map,
  zip, is_empty, unwrap_or, Result, ok, err, write_all, picked, is_some,
}
use st0x_rest_api.ApiError.{ApiError, internal}
use st0x_rest_api.Sdk.{RaindexOrder}
use st0x_rest_api.Orders.Quotes.{Quotes, IndexedOrder}

-- The key is made of the chain, the orderbook and the order's hash.
abbrev pub CacheKey : Type 0
CacheKey = ℕ × ℕ × ℕ

unfoldable pub order_quote_cache_key : RaindexOrder → CacheKey
order_quote_cache_key order = (order.chain_id, order.raindex, order.order_hash)

abbrev pub same_key : CacheKey → CacheKey → Bool
same_key (a, b, c) (d, e, f) = if a == d then (if b == e then c == f else false) else false

abbrev pub QuoteCache : Type 0
QuoteCache = CacheKey → Option Quotes

unfoldable pub cache_insert : CacheKey → Quotes → QuoteCache → QuoteCache
cache_insert k quotes cache j = if same_key k j then some quotes else cache j

-- The loop over the orders: what the cache has, and the orders that it misses.
unfoldable pub cached_from : QuoteCache → List RaindexOrder → List (Option Quotes)
cached_from cache = map (λ order. cache (order_quote_cache_key order))

unfoldable pub missed_from : QuoteCache → List RaindexOrder → List IndexedOrder
missed_from cache = picked (λ order. not (is_some (cache (order_quote_cache_key order)))) 0

-- The loop over the answers: each is inserted into the cache.
unfoldable pub remember : QuoteCache → List (RaindexOrder × Quotes) → QuoteCache
remember cache [] = cache
remember cache ((order, quotes) ∷ pairs) =
    remember (cache_insert (order_quote_cache_key order) quotes cache) pairs

module _ (fetch : List RaindexOrder → Option (List Quotes)) where
  unfoldable pub fill_missed :
      QuoteCache
      → List (Option Quotes)
      → List IndexedOrder
      → Result ApiError (List Quotes) × QuoteCache
  fill_missed cache slots missed = elim (fetch (map (λ p. p.1) missed)) [
    | none ↦ (err (internal "failed to query order quotes"), cache)
    | some missed_quotes ↦
        if not (length missed_quotes == length missed)
        then (err (internal "failed to query order quotes"), cache)
        else (
          ok (
              map (λ quotes. unwrap_or quotes [])
                (write_all slots (zip (map (λ p. p.0) missed) missed_quotes))),
          remember cache (zip (map (λ p. p.1) missed) missed_quotes),
        )
  ]

  -- `enabled` is `caches.is_enabled()`.
  unfoldable pub get_order_quotes_batch_for_chain :
      Bool → QuoteCache → List RaindexOrder → Result ApiError (List Quotes) × QuoteCache
  get_order_quotes_batch_for_chain false cache orders = elim (fetch orders) [
    | none ↦ (err (internal "failed to query order quotes"), cache)
    | some quotes ↦ (ok quotes, cache)
  ]
  get_order_quotes_batch_for_chain true cache orders =
      let slots = cached_from cache orders in
      let missed = missed_from cache orders in
      if is_empty missed
      then (ok (map (λ quotes. unwrap_or quotes []) slots), cache)
      else fill_missed cache slots missed
