-- ===== src/Orders/Coherence.antt =====
-- The cache of quotes cannot be seen in the answers of a batch.
use st0x_rest_api.Prelude.{
  ℕ, ◌≡◌, refl, sym, ap, ◌∙◌, inl, inr, Bool, true, false, not, Option, some, List, [], ◌∷◌, ◌==◌,
  ==_iff, length, map, zip, is_empty, is_some, unwrap_or, ok, get_elem?, get_elem?-map, write_all,
  write_all-picked, unwrap_or-some, length-map, Bool-cases, Option-cases, arith,
}
use st0x_rest_api.Sdk.{RaindexOrder}
use st0x_rest_api.Orders.Quotes.{Quotes, IndexedOrder}
use st0x_rest_api.Orders.Cache.{
  CacheKey, order_quote_cache_key, same_key, QuoteCache, cache_insert, cached_from, missed_from,
  remember, fill_missed, get_order_quotes_batch_for_chain,
}
use st0x_rest_api.Orders.Active.{zip-places}

-- The cache holds right answers only.
abbrev pub IsCoherent : (CacheKey → Quotes) → QuoteCache → Type 0
IsCoherent q cache = (k : CacheKey) (v : Quotes) → cache k ≡ some v → v ≡ q k

pub same_key_sound : (j k : CacheKey) → same_key j k ≡ true → j ≡ k
same_key_sound (a, b, c) (d, e, f) h = ground arith

insert_hit :
    (k j : CacheKey) (v : Quotes) (cache : QuoteCache)
    → same_key k j ≡ true
    → cache_insert k v cache j ≡ some v
unfolding cache_insert
insert_hit k j v cache h = rw h refl

insert_miss :
    (k j : CacheKey) (v : Quotes) (cache : QuoteCache)
    → same_key k j ≡ false
    → cache_insert k v cache j ≡ cache j
unfolding cache_insert
insert_miss k j v cache h = rw h refl

cache_insert-IsCoherent :
    (q : CacheKey → Quotes) (cache : QuoteCache) (k : CacheKey)
    → IsCoherent q cache
    → IsCoherent q (cache_insert k (q k) cache)
cache_insert-IsCoherent q cache k h j v e = elim (Bool-cases (same_key k j)) [
  | inl same ↦
      let hit = insert_hit k j (q k) cache same in
      let value : v ≡ q k = cc in value ∙ ap q (same_key_sound k j same)
  | inr other ↦ h j v (sym (insert_miss k j (q k) cache other) ∙ e)
]

remember-IsCoherent :
    (q : CacheKey → Quotes) (cache : QuoteCache) (orders : List RaindexOrder)
    → IsCoherent q cache
    → IsCoherent q (remember cache (zip orders (map (λ o. q (order_quote_cache_key o)) orders)))
unfolding remember
remember-IsCoherent q cache [] h = h
remember-IsCoherent q cache (o ∷ orders) h =
    remember-IsCoherent q
      (cache_insert (order_quote_cache_key o) (q (order_quote_cache_key o)) cache) orders
      (cache_insert-IsCoherent q cache (order_quote_cache_key o) h)

module _ (q : CacheKey → Quotes) (cache : QuoteCache) (coherent : IsCoherent q cache) where
  abbrev answer : RaindexOrder → Quotes
  answer o = q (order_quote_cache_key o)

  length-cached : (orders : List RaindexOrder) → length (cached_from cache orders) ≡ length orders
  unfolding cached_from
  length-cached orders = length-map orders (λ order. cache (order_quote_cache_key order))

  cached_from-get :
      (orders : List RaindexOrder) (n : ℕ) (o : RaindexOrder)
      → get_elem? orders n ≡ some o
      → not (is_some (cache (order_quote_cache_key o))) ≡ false
      → get_elem? (cached_from cache orders) n ≡ some (some (answer o))
  unfolding cached_from
  cached_from-get orders n o g h = elim (Option-cases (cache (order_quote_cache_key o))) [
    | inl e ↦ cc
    | inr (v, e) ↦
        get_elem?-map (λ order. cache (order_quote_cache_key order)) orders n g
        ∙ ap some (e ∙ ap some (coherent (order_quote_cache_key o) v e))
  ]

  filled :
      (orders : List RaindexOrder)
      → write_all (cached_from cache orders) (
          map {B = ℕ × Quotes}
            (λ (p : ℕ × RaindexOrder). (p.0, answer p.1))
            (missed_from cache orders))
        ≡ map some (map answer orders)
  unfolding missed_from
  filled orders =
      write_all-picked (λ o. not (is_some (cache (order_quote_cache_key o)))) answer orders
        (cached_from cache orders) (length-cached orders) (cached_from-get orders)

  module _ (fetch : List RaindexOrder → Option (List Quotes))
      (answers : (os : List RaindexOrder) → fetch os ≡ some (map answer os)) where
    lengths_agree :
        (xs : List IndexedOrder) → (length (map answer (map (λ p. p.1) xs)) == length xs) ≡ true
    lengths_agree xs =
        (==_iff _ _).1 (length-map (map (λ p. p.1) xs) answer ∙ length-map xs (λ p. p.1))

    fill_missed-answers :
        (orders : List RaindexOrder)
        → (fill_missed fetch cache (cached_from cache orders) (missed_from cache orders)).0
          ≡ ok (map answer orders)
    unfolding fill_missed
    fill_missed-answers orders =
        let xs = missed_from cache orders in
        rw
          (
            fill_missed,
            answers (map (λ p. p.1) xs),
            lengths_agree xs,
            zip-places answer xs,
            filled orders,
            unwrap_or-some [] (map answer orders),
          )
          refl

    fill_missed-IsCoherent :
        (orders : List RaindexOrder)
        → IsCoherent q
            (fill_missed fetch cache (cached_from cache orders) (missed_from cache orders)).1
    unfolding fill_missed
    fill_missed-IsCoherent orders =
        let xs = missed_from cache orders in
        rw (fill_missed, answers (map (λ p. p.1) xs), lengths_agree xs)
          (remember-IsCoherent q cache (map (λ p. p.1) xs) coherent)

all_cached :
    (xs : List IndexedOrder) (slots : List (Option Quotes)) (f : IndexedOrder → ℕ × Quotes)
    → is_empty xs ≡ true
    → write_all slots (map f xs) ≡ slots
all_cached [] slots f h = refl
all_cached (x ∷ xs) slots f h = cc

-- If the cache holds right answers only and the client's batch answers each order it is asked
-- for, a batch answers all orders, in their order, whatever the cache has of them; and the cache
-- that it leaves holds right answers only.
pub get_order_quotes_batch_for_chain-answers :
    (q : CacheKey → Quotes) (fetch : List RaindexOrder → Option (List Quotes)) (enabled : Bool)
    (cache : QuoteCache) (orders : List RaindexOrder)
    → IsCoherent q cache
    → ((os : List RaindexOrder) → fetch os ≡ some (map (λ o. q (order_quote_cache_key o)) os))
    → ((get_order_quotes_batch_for_chain fetch enabled cache orders).0
        ≡ ok (map (λ o. q (order_quote_cache_key o)) orders))
      × IsCoherent q (get_order_quotes_batch_for_chain fetch enabled cache orders).1
unfolding get_order_quotes_batch_for_chain
get_order_quotes_batch_for_chain-answers q fetch false cache orders coherent answers =
    rw (get_order_quotes_batch_for_chain, answers orders) (refl, coherent)
get_order_quotes_batch_for_chain-answers q fetch true cache orders coherent answers =
    elim (Bool-cases (is_empty (missed_from cache orders))) [
      | inl hit ↦
          let slots : cached_from cache orders ≡ map some (map (answer q cache coherent) orders) =
            sym (all_cached (missed_from cache orders) _ _ hit) ∙ filled q cache coherent orders in
          rw hit (
            ap (λ (s : List (Option Quotes)). ok (map (λ quotes. unwrap_or quotes []) s)) slots
                ∙ ap ok (unwrap_or-some [] (map (answer q cache coherent) orders)),
            coherent,
          )
      | inr miss ↦ rw miss (
        fill_missed-answers q cache coherent fetch answers orders,
        fill_missed-IsCoherent q cache coherent fetch answers orders,
      )
    ]
