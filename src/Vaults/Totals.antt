-- ===== src/Vaults/Totals.antt =====
-- The totals of all vaults: each token's total is the sum of the balances that
-- were read.
use native.Mathlib.Nat.{mod-add-mod}
use st0x_rest_api.Prelude.{
  ℕ, ◌+◌, ◌%◌, ◌^◌, ◌≡◌, refl, ap, ◌∙◌, inl, inr, Bool, true, false, ◌&&◌, Option, none, some, List,
  [], ◌∷◌, ltb, ◌==◌, if◌then◌else◌, map, lookup, All, ok, Bool-cases, arith,
}
use st0x_rest_api.Vaults.{
  VaultRecord, VaultsDataSource, VaultTotalAccumulator, Accumulators, add_u256, add_to, add_vault,
  add_page, VaultTotalResponse, total_response, insert_total, sort_totals, max_pages, default_page,
  process_get_vault_totals,
}
use st0x_rest_api.Vaults.Pages.{Reads, totals_loop-Reads}

-- What the vaults of a token hold together, and how many of them are not empty.
abbrev pub sum_of : ℕ → List VaultRecord → ℕ
sum_of a [] = 0
sum_of a (v ∷ vs) = (if v.token.address == a then v.balance else 0) + sum_of a vs

abbrev pub count_of : ℕ → List VaultRecord → ℕ
count_of a [] = 0
count_of a (v ∷ vs) = (if ltb 0 v.balance && v.token.address == a then 1 else 0) + count_of a vs

abbrev amount : Option VaultTotalAccumulator → ℕ × ℕ
amount none = (0, 0)
amount (some entry) = (entry.total_balance, entry.vault_count)

abbrev hits : ℕ → VaultRecord → ℕ × ℕ → ℕ × ℕ
hits a v (b, n) = if v.token.address == a then (add_u256 b v.balance, n + 1) else (b, n)

amount-add_vault :
    (a : ℕ) (v : VaultRecord) (totals : Accumulators)
    → amount (lookup a (add_vault v totals)) ≡ hits a v (amount (lookup a totals))
unfolding add_vault add_to
amount-add_vault a v [] = ground arith
amount-add_vault a v ((k, entry) ∷ totals) = ground (arith, amount-add_vault a v totals)

add_zero : (n : ℕ) → n + 0 ≡ n
add_zero n = omega arith

zero_add : (n : ℕ) → 0 + n ≡ n
zero_add n = omega arith

add_assoc : (a b c : ℕ) → a + b + c ≡ a + (b + c)
add_assoc a b c = omega arith

same_both : (b : Bool) → if◌then◌else◌ {A = ℕ} b 0 0 ≡ 0
same_both true = refl
same_both false = refl

-- One vault of the page, empty or not.
abbrev step : VaultRecord → Accumulators → Accumulators
step v totals = if ltb 0 v.balance then add_vault v totals else totals

amount-step :
    (a : ℕ) (v : VaultRecord) (totals : Accumulators) (x n : ℕ)
    → amount (lookup a totals) ≡ (x % 2 ^ 256, n)
    → amount (lookup a (step v totals)) ≡ (
      (x + (if v.token.address == a then v.balance else 0)) % 2 ^ 256,
      n + (if ltb 0 v.balance && v.token.address == a then 1 else 0),
    )
amount-step a v totals x n h = elim (Bool-cases (ltb 0 v.balance)) [
  | inl full ↦
      rw (full, amount-add_vault a v totals, h)
        (elim (Bool-cases (v.token.address == a)) [
          | inl hit ↦ rw (hit, mod-add-mod x (2 ^ 256) v.balance) refl
          | inr miss ↦ rw miss (cc (add_zero x, add_zero n))
        ])
  | inr void ↦
      let nothing : v.balance ≡ 0 = ground arith in
      rw (void, nothing, h, same_both (v.token.address == a)) (cc (add_zero x, add_zero n))
]

amount-add_page :
    (a : ℕ) (vs : List VaultRecord) (totals : Accumulators) (x n : ℕ)
    → amount (lookup a totals) ≡ (x % 2 ^ 256, n)
    → amount (lookup a (add_page totals vs)) ≡ ((x + sum_of a vs) % 2 ^ 256, n + count_of a vs)
unfolding add_page
amount-add_page a [] totals x n h = h ∙ cc (add_zero x, add_zero n)
amount-add_page a (v ∷ vs) totals x n h =
    amount-add_page a vs (step v totals) _ _ (amount-step a v totals x n h)
    ∙ cc (
      add_assoc x (if v.token.address == a then v.balance else 0) (sum_of a vs),
      add_assoc n (if ltb 0 v.balance && v.token.address == a then 1 else 0) (count_of a vs),
    )

-- What a response shows of a token: the total and the number of vaults, or nothing.
abbrev pub shown : ℕ → List VaultTotalResponse → ℕ × ℕ
shown a [] = (0, 0)
shown a (t ∷ ts) = if t.address == a then (t.total_balance, t.vault_count) else shown a ts

shown-insert_total :
    (a : ℕ) (t : VaultTotalResponse) (ts : List VaultTotalResponse)
    → shown a (insert_total t ts) ≡ shown a (t ∷ ts)
unfolding insert_total
shown-insert_total a t [] = refl
shown-insert_total a t (u ∷ us) = ground (arith, shown-insert_total a t us)

shown-sort_totals : (a : ℕ) (ts : List VaultTotalResponse) → shown a (sort_totals ts) ≡ shown a ts
unfolding sort_totals
shown-sort_totals a [] = refl
shown-sort_totals a (t ∷ ts) =
    shown-insert_total a t (sort_totals ts)
    ∙ ap (if◌then◌else◌ (t.address == a) (t.total_balance, t.vault_count)) (shown-sort_totals a ts)

-- Each entry stands under the address of its token.
abbrev IsKeyed : Accumulators → Type 0
IsKeyed = All (λ e. e.0 ≡ (e.1).token.address)

add_vault-IsKeyed :
    (v : VaultRecord) (totals : Accumulators) → IsKeyed totals → IsKeyed (add_vault v totals)
unfolding add_vault add_to
add_vault-IsKeyed v [] h = (refl, tt)
add_vault-IsKeyed v ((k, entry) ∷ totals) (h, hs) = elim (Bool-cases (k == v.token.address)) [
  | inl hit ↦ rw hit (h, hs)
  | inr miss ↦ rw miss (h, add_vault-IsKeyed v totals hs)
]

step-IsKeyed : (v : VaultRecord) (totals : Accumulators) → IsKeyed totals → IsKeyed (step v totals)
step-IsKeyed v totals h = elim (Bool-cases (ltb 0 v.balance)) [
  | inl full ↦ rw full (add_vault-IsKeyed v totals h)
  | inr void ↦ rw void h
]

add_page-IsKeyed :
    (vs : List VaultRecord) (totals : Accumulators) → IsKeyed totals → IsKeyed (add_page totals vs)
unfolding add_page
add_page-IsKeyed [] totals h = h
add_page-IsKeyed (v ∷ vs) totals h = add_page-IsKeyed vs (step v totals) (step-IsKeyed v totals h)

shown-total_response :
    (a : ℕ) (totals : Accumulators)
    → IsKeyed totals
    → shown a (map (λ t. total_response t.1) totals) ≡ amount (lookup a totals)
unfolding total_response
shown-total_response a [] h = refl
shown-total_response a ((k, entry) ∷ totals) (h, hs) =
    rw h (ground (arith, shown-total_response a totals hs))

-- If the pages from the first one on can be read and end, the response shows for each token the
-- sum of the balances of its vaults on all the pages (as a 256-bit number, which wraps around) and
-- the number of those that are not empty.
pub process_get_vault_totals-sums :
    (ds : VaultsDataSource) (vs : List VaultRecord) (a : ℕ)
    → Reads ds default_page vs
    → (ts : List VaultTotalResponse) × (process_get_vault_totals ds ≡ some (ok ts))
      × (shown a ts ≡ (sum_of a vs % 2 ^ 256, count_of a vs))
unfolding process_get_vault_totals sort_totals
process_get_vault_totals-sums ds vs a h =
    let totals = add_page [] vs in
    let looped = totals_loop-Reads ds max_pages default_page [] vs (omega arith) (omega arith) h in
    (
      sort_totals (map (λ t. total_response t.1) totals),
      rw (process_get_vault_totals, looped) refl,
      shown-sort_totals a _
          ∙ shown-total_response a totals (add_page-IsKeyed vs [] tt)
          ∙ amount-add_page a vs [] 0 0 refl
          ∙ cc (zero_add (sum_of a vs), zero_add (count_of a vs)),
    )
