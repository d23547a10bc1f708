-- ===== src/Orders/Active.antt =====
-- Quotes are fetched for the active orders only, and come back in their places.
use st0x_rest_api.Prelude.{
  ℕ, zero, suc, ◌≡◌, refl, ap, ◌∙◌, true, false, none, some, List, [], ◌∷◌, if◌then◌else◌, length,
  map, zip, ok, get_elem?, write_all, write_all-picked, map-picked-agree, write_all-nonempty,
  unwrap_or-some,
}
use st0x_rest_api.Sdk.{RaindexOrder}
use st0x_rest_api.Orders.Quotes.{
  OrderQuoteResult, active_from, inactive_slots, get_order_quotes_for_summaries,
}

-- The answers for picked entries, zipped with their places.
pub zip-places {ℓ} :
    {A : Type ℓ} {R : Type 0} (f : A → R) (xs : List (ℕ × A))
    → zip (map (λ p. p.0) xs) (map f (map (λ p. p.1) xs))
      ≡ map {B = ℕ × R} (λ (q : ℕ × A). (q.0, f q.1)) xs
zip-places f [] = refl
zip-places f (x ∷ xs) = ap (◌∷◌ (x.0, f x.1)) (zip-places f xs)

map-pairs {ℓ} :
    {A : Type ℓ} {R : Type 0} (f : A → R) (xs : List (ℕ × A))
    → map {B = ℕ × R} (λ (p : (ℕ × A) × R). (p.0.0, p.1)) (zip xs (map f (map (λ p. p.1) xs)))
      ≡ map {B = ℕ × R} (λ (q : ℕ × A). (q.0, f q.1)) xs
map-pairs f [] = refl
map-pairs f (x ∷ xs) = ap (◌∷◌ (x.0, f x.1)) (map-pairs f xs)

-- The answer that a summary starts from.
abbrev pub quote_for : (RaindexOrder → OrderQuoteResult) → RaindexOrder → OrderQuoteResult
quote_for q order = if order.active then q order else ok []

quote_for-inactive :
    (q : RaindexOrder → OrderQuoteResult) (o : RaindexOrder)
    → o.active ≡ false
    → quote_for q o ≡ ok []
quote_for-inactive q o h = rw h refl

inactive-here :
    (q : RaindexOrder → OrderQuoteResult) (o : RaindexOrder)
    → o.active ≡ false
    → some (if o.active then none else some (ok [])) ≡ some (some (quote_for q o))
inactive-here q o h = rw h refl

inactive_slots-get :
    (q : RaindexOrder → OrderQuoteResult) (orders : List RaindexOrder) (n : ℕ) (o : RaindexOrder)
    → get_elem? orders n ≡ some o
    → o.active ≡ false
    → get_elem? (inactive_slots orders) n ≡ some (some (quote_for q o))
unfolding inactive_slots
inactive_slots-get q [] n o g h = cc
inactive_slots-get q (x ∷ orders) zero o g h =
    let same : x ≡ o = cc in rw (ap (λ t. t) same) (inactive-here q o h)
inactive_slots-get q (x ∷ orders) (suc n) o g h = inactive_slots-get q orders n o g h

length-inactive_slots :
    (orders : List RaindexOrder) → length (inactive_slots orders) ≡ length orders
unfolding inactive_slots
length-inactive_slots [] = refl
length-inactive_slots (x ∷ orders) = ap suc (length-inactive_slots orders)

quote_for-active :
    (q : RaindexOrder → OrderQuoteResult) (o : RaindexOrder) → o.active ≡ true → q o ≡ quote_for q o
quote_for-active q o h = rw h refl

-- If the data source's batch gives each active order its answer in the order asked, the quotes of
-- a list of orders are that answer for an active order and none for an inactive one, in the
-- list's order.
pub get_order_quotes_for_summaries-eq-map :
    (q : RaindexOrder → OrderQuoteResult) (batch : List RaindexOrder → List OrderQuoteResult)
    (orders : List RaindexOrder)
    → ((os : List RaindexOrder) → batch os ≡ map q os)
    → get_order_quotes_for_summaries batch orders ≡ map (quote_for q) orders
unfolding get_order_quotes_for_summaries active_from
get_order_quotes_for_summaries-eq-map q batch orders h =
    let xs = active_from orders in
    let write : ℕ × RaindexOrder → ℕ × OrderQuoteResult = (λ p. (p.0, q p.1)) in
    let filled : write_all (inactive_slots orders) (map write xs)
        ≡ map some (map (quote_for q) orders) =
      ap (write_all (inactive_slots orders))
        (map-picked-agree (λ o. o.active) q (quote_for q) 0 orders (quote_for-active q))
      ∙ write_all-picked (λ o. o.active) (quote_for q) orders (inactive_slots orders)
          (length-inactive_slots orders) (inactive_slots-get q orders) in
    rw
      (
        h (map (λ p. p.1) xs),
        map-pairs q xs,
        write_all-nonempty (inactive_slots orders) write xs,
        filled,
      )
      (unwrap_or-some (ok []) (map (quote_for q) orders))
