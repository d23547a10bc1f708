-- ===== src/Orders/Pages.antt =====
-- The page numbers of a list of orders, and when there is a response.
use native.Mathlib.Omega.{div_fact, mod_fact}
use st0x_rest_api.Prelude.{
  ℕ, zero, suc, ◌+◌, ◌*◌, ◌/◌, ◌%◌, ◌<◌, ◌≤◌, ◌≡◌, refl, ◌∙◌, ◌↔◌, inl, inr, true, false, List, [],
  ◌∷◌, ltb, ◌==◌, ==_iff, length, zip, ok, err, ◌>>=◌, traverse, ltb→lt, lt→ltb, Bool-cases, arith,
}
use st0x_rest_api.ApiError.{internal}
use st0x_rest_api.Sdk.{RaindexOrder, RaindexVault, div_ceil}
use st0x_rest_api.Floats.{FloatOps}
use st0x_rest_api.IoVaults.{resolve_io_vaults}
use st0x_rest_api.Denomination.{Denomination, WrapRatioMap, wrapped}
use st0x_rest_api.Orders.{OrdersPagination, build_pagination}
use st0x_rest_api.Orders.Quotes.{OrderQuoteResult}
use st0x_rest_api.Orders.Summaries.{
  OrderSummary, OrdersListResponse, build_order_summary, balance_in, io_ratio_in, max_output_in,
  summary_of, build_orders_list_response,
}

mul_mono : (k a b : ℕ) → a ≤ b → k * a ≤ k * b
mul_mono zero a b h = omega arith
mul_mono (suc k) a b h = omega (arith, mul_mono k a b h)

mul_lt_iff : (k a b : ℕ) → (a < b) ↔ (suc k * a < suc k * b)
mul_lt_iff k a b = (
  (λ h. omega (arith, mul_mono k a b (omega arith))),
  λ h. elim (Bool-cases (ltb a b)) [
    | inl less ↦ ltb→lt a b less
    | inr more ↦ absurd (let ge : b ≤ a = ground arith in omega (arith, mul_mono k b a ge))
  ],
)

even_above : (t k p q : ℕ) → suc k * q ≡ t → (p < q) ↔ (suc k * p < t)
even_above t k p q h = rw⁻¹ h (mul_lt_iff k p q)

odd_above : (t k p q r : ℕ) → suc k * q + r ≡ t → r < suc k → 0 < r → (p < q + 1) ↔ (suc k * p < t)
odd_above t k p q r whole rest some_left = (
  (λ h. omega (arith, mul_mono k p q (omega arith))),
  λ h. elim (Bool-cases (ltb p (q + 1))) [
    | inl less ↦ ltb→lt p (q + 1) less
    | inr more ↦
        absurd (let ge : q + 1 ≤ p = ground arith in omega (arith, mul_mono k (q + 1) p ge))
  ],
)

not_zero : (r : ℕ) → (r == 0) ≡ false → 0 < r
not_zero r h = ground arith

-- A page number is below the number of pages where the pages up to it do not reach the total.
pub div_ceil-above : (t k p : ℕ) → (p < div_ceil t (suc k)) ↔ (suc k * p < t)
div_ceil-above t k p =
    let q = t / suc k in
    let whole = div_fact t k in
    let rest = mod_fact t k in
    let next : suc k * (q + 1) ≡ suc k * q + suc k = omega arith in
    elim (Bool-cases (t % suc k == 0)) [
      | inl even ↦ let none_left = (==_iff _ _).0 even in rw even (even_above t k p q (omega arith))
      | inr odd ↦ rw odd (odd_above t k p q (t % suc k) whole rest (not_zero _ odd))
    ]

suc_ne_zero : (k : ℕ) → (suc k == 0) ≡ false
suc_ne_zero k = ground arith

-- The page numbers asked for. Pages that hold no orders are none; otherwise a page is one of the
-- pages exactly when the full pages before it do not hold all orders.
pub record ArePageNumbers (total_count page page_size : ℕ) (p : OrdersPagination) : Type 0 where
  pub same_page : p.page ≡ page
  pub same_size : p.page_size ≡ page_size
  pub same_total : p.total_orders ≡ total_count
  pub without_size : page_size ≡ 0 → (p.total_pages ≡ 0) × (p.has_more ≡ false)
  pub pages : 0 < page_size → (q : ℕ) → (q < p.total_pages) ↔ (page_size * q < total_count)
  pub more : 0 < page_size → (p.has_more ≡ true) ↔ (page_size * page < total_count)

pub build_pagination-ArePageNumbers :
    (total_count page page_size : ℕ)
    → ArePageNumbers total_count page page_size (build_pagination total_count page page_size)
unfolding build_pagination
build_pagination-ArePageNumbers total_count page zero = record {
  same_page = refl;
  same_size = refl;
  same_total = refl;
  without_size = λ h. (refl, ground arith);
  pages = λ h. absurd (omega arith);
  more = λ h. absurd (omega arith);
}
build_pagination-ArePageNumbers total_count page (suc k) = record {
  same_page = refl;
  same_size = refl;
  same_total = refl;
  without_size = λ h. absurd (omega arith);
  pages = λ h q. rw (suc_ne_zero k) (div_ceil-above total_count k q);
  more = λ h. rw (suc_ne_zero k) (
    (λ m. (div_ceil-above total_count k page).0 (ltb→lt page _ m)),
    λ m. lt→ltb page _ ((div_ceil-above total_count k page).1 m),
  );
}

-- The page of the summaries, and when a response is one.
abbrev pub page_of : List OrderSummary → ℕ → ℕ → ℕ → OrdersListResponse
page_of summaries total_count page page_size = record {
  orders = summaries;
  pagination = build_pagination total_count page page_size;
}

module _ (ops : FloatOps) (orders : List RaindexOrder) (total_count page page_size : ℕ)
    (results : List OrderQuoteResult) (d : Denomination) (ratios : WrapRatioMap) where
  pub response_of_same :
      (length results == length orders) ≡ true
      → build_orders_list_response ops orders total_count page page_size results d ratios ≡ (
          traverse (summary_of ops d ratios) (zip orders results) >>= λ summaries.
          ok (page_of summaries total_count page page_size))
  unfolding build_orders_list_response
  response_of_same same = rw same refl

  pub response_of_other :
      (length results == length orders) ≡ false
      → build_orders_list_response ops orders total_count page page_size results d ratios
        ≡ err (internal "failed to query order quotes")
  unfolding build_orders_list_response
  response_of_other other = rw other refl

-- Every order has an input and an output vault.
abbrev pub AreResolved : List RaindexOrder → Type 0
AreResolved [] = Unit
AreResolved (o ∷ orders) =
    ((vaults : RaindexVault × RaindexVault) × (resolve_io_vaults o ≡ ok vaults))
    × AreResolved orders

summary_of-wrapped :
    (ops : FloatOps) (ratios : WrapRatioMap) (o : RaindexOrder) (r : OrderQuoteResult)
    (vaults : RaindexVault × RaindexVault)
    → resolve_io_vaults o ≡ ok vaults
    → (s : OrderSummary) × (summary_of ops wrapped ratios (o, r) ≡ ok s)
unfolding summary_of build_order_summary balance_in io_ratio_in max_output_in
summary_of-wrapped ops ratios o r vaults h = rw h (_, refl)

traverse-wrapped :
    (ops : FloatOps) (ratios : WrapRatioMap) (orders : List RaindexOrder)
    (results : List OrderQuoteResult)
    → AreResolved orders
    → (ss : List OrderSummary) × (traverse (summary_of ops wrapped ratios) (zip orders results)
        ≡ ok ss)
traverse-wrapped ops ratios [] results h = ([], refl)
traverse-wrapped ops ratios (o ∷ orders) [] h = ([], refl)
traverse-wrapped ops ratios (o ∷ orders) (r ∷ results) ((vaults, e), h) =
    let (s, here) = summary_of-wrapped ops ratios o r vaults e in
    let (ss, later) = traverse-wrapped ops ratios orders results h in
    (s ∷ ss, rw (here, later) refl)

-- In the wrapped denomination, when every order has its two vaults and there is one quote result
-- for each order, there is a response: no failed quote and no float operation stops it.
pub build_orders_list_response-wrapped :
    (ops : FloatOps) (orders : List RaindexOrder) (total_count page page_size : ℕ)
    (results : List OrderQuoteResult) (ratios : WrapRatioMap)
    → length results ≡ length orders
    → AreResolved orders
    → (response : OrdersListResponse) × (build_orders_list_response ops orders total_count page
          page_size results wrapped ratios
        ≡ ok response)
build_orders_list_response-wrapped ops orders total_count page page_size results ratios l h =
    let (ss, made) = traverse-wrapped ops ratios orders results h in
    (
      page_of ss total_count page page_size,
      response_of_same ops orders total_count page page_size results wrapped ratios
            ((==_iff _ _).1 l)
          ∙ rw made refl,
    )
