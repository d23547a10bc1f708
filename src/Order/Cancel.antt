-- ===== src/Order/Cancel.antt =====
-- src/routes/order/cancel.rs: the transaction that cancels an order, and what it returns.
use native.Mathlib.Nat.{mod-add-mod}
use st0x_rest_api.Prelude.{
  ℕ, ◌+◌, ◌%◌, ◌^◌, ◌≡◌, refl, ap, ◌∙◌, inl, inr, Bool, not, Option, none, some, List, [], ◌∷◌,
  ◌++◌, String, if◌then◌else◌, first, keep, length, map, unwrap_or, Bool-cases, Result, ok, ◌>>=◌,
  ok_or, map_err, suc, sym, append_nil, append_assoc, arith,
}
use st0x_rest_api.ApiError.{ApiError, internal, not_found}
use st0x_rest_api.Bytes.{ByteString}
use st0x_rest_api.Denomination.{concat}
use st0x_rest_api.Sdk.{RaindexVault, RaindexOrder}
use st0x_rest_api.Order.{OrderDataSource}

pub record CancelTransaction : Type 0 where
  pub to : ℕ
  pub data' : ByteString
  pub value : ℕ

pub record TokenReturn : Type 0 where
  pub token : ℕ
  pub symbol : String
  pub amount : String

pub record CancelSummary : Type 0 where
  pub vaults_to_withdraw : ℕ
  pub tokens_returned : List TokenReturn

pub record CancelOrderResponse : Type 0 where
  pub transactions : List CancelTransaction
  pub summary : CancelSummary

unfoldable pub token_return : RaindexVault → TokenReturn
token_return vault = record {
  token = vault.token.address;
  symbol = unwrap_or vault.token.symbol "";
  amount = vault.formatted_balance;
}

-- The test of a balance for zero, or the error's text, is the package's.
module _ (is_zero : RaindexVault → Result String Bool) where
  -- The loop's body, for a balance that was tested. The counter is a `u32`.
  unfoldable pub withdraw : Bool → RaindexVault → CancelSummary → CancelSummary
  withdraw zero_balance vault summary =
      if not zero_balance
      then record {
        vaults_to_withdraw = (summary.vaults_to_withdraw + 1) % 2 ^ 32;
        tokens_returned = summary.tokens_returned ++ token_return vault ∷ [];
      }
      else summary

  unfoldable pub summarize : CancelSummary → List RaindexVault → Result ApiError CancelSummary
  summarize summary [] = ok summary
  summarize summary (vault ∷ vaults) = do
    zero_balance ←
        map_err (λ e. internal (concat "failed to check vault balance: " e)) (is_zero vault)
    summarize (withdraw zero_balance vault summary) vaults

  unfoldable pub process_cancel_order : OrderDataSource → ℕ → Result ApiError CancelOrderResponse
  process_cancel_order ds hash = do
    orders ← ds.get_orders_by_hash hash
    order ← ok_or (first orders) (not_found "order not found")
    calldata ← ds.get_remove_calldata order
    summary ←
        summarize (record { vaults_to_withdraw = 0; tokens_returned = [] })
          (order.inputs_list ++ order.outputs_list)
    ok (record {
      transactions = record { to = order.raindex; data' = calldata; value = 0 } ∷ [];
      summary = summary;
    })

-- Where every balance can be tested, `zero` tells the outcome.
abbrev pub IsTested : (RaindexVault → Result String Bool) → (RaindexVault → Bool) → Type 0
IsTested is_zero zero = (vault : RaindexVault) → is_zero vault ≡ ok (zero vault)

unwrap_or-elim :
    (symbol : Option String) → unwrap_or symbol "" ≡ elim symbol [ none ↦ "" | some s ↦ s ]
unwrap_or-elim none = refl
unwrap_or-elim (some s) = refl

-- The token of a vault with the whole balance, as the client formats it.
abbrev pub whole_balance : RaindexVault → TokenReturn
whole_balance vault = record {
  token = vault.token.address;
  symbol = elim vault.token.symbol [ none ↦ "" | some symbol ↦ symbol ];
  amount = vault.formatted_balance;
}

-- What the vaults return whose balance is not zero.
abbrev pub returned : (RaindexVault → Bool) → List RaindexVault → List TokenReturn
returned zero vaults = map whole_balance (keep (λ vault. not (zero vault)) vaults)

token_return_lem : (vault : RaindexVault) → token_return vault ≡ whole_balance vault
unfolding token_return
token_return_lem vault =
    ap (λ s. record { token = vault.token.address; symbol = s; amount = vault.formatted_balance })
      (unwrap_or-elim vault.token.symbol)

abbrev counted : ℕ → List TokenReturn → CancelSummary
counted n returns = record { vaults_to_withdraw = n % 2 ^ 32; tokens_returned = returns }

summarize-counted :
    (is_zero : RaindexVault → Result String Bool) (zero : RaindexVault → Bool) (n : ℕ)
    (returns : List TokenReturn) (vaults : List RaindexVault)
    → IsTested is_zero zero
    → summarize is_zero (counted n returns) vaults
      ≡ ok (counted (n + length (returned zero vaults)) (returns ++ returned zero vaults))
unfolding summarize withdraw
summarize-counted is_zero zero n returns [] tested =
    let same : n ≡ n + 0 = omega arith in
    ap (λ k. ok (counted k returns)) same
    ∙ ap (λ rs. ok (counted (n + 0) rs)) (sym (append_nil returns))
summarize-counted is_zero zero n returns (vault ∷ vaults) tested =
    rw (tested vault) (elim (Bool-cases (zero vault)) [
      | inl void ↦ rw void (summarize-counted is_zero zero n returns vaults tested)
      | inr full ↦
          let here = whole_balance vault ∷ [] in
          let next : (n % 2 ^ 32 + 1) % 2 ^ 32 ≡ (n + 1) % 2 ^ 32 = mod-add-mod n (2 ^ 32) 1 in
          let shift : n + 1 + length (returned zero vaults)
              ≡ n + suc (length (returned zero vaults)) =
            omega arith in
          rw (full, next, token_return_lem vault)
            (summarize-counted is_zero zero (n + 1) (returns ++ here) vaults tested
              ∙ ap (λ k. ok (counted k ((returns ++ here) ++ returned zero vaults))) shift
              ∙ ap (λ rs. ok (counted (n + suc (length (returned zero vaults))) rs))
                  (append_assoc returns here (returned zero vaults)))
    ])

-- If an order is found, its calldata can be made and its balances can be tested, a cancellation has
-- one transaction, the removal of the order, without value and to the order's contract, however many
-- vaults there are to withdraw from. Its summary has the tokens of the order's input and output
-- vaults that are not empty, with their symbols and balances, in their order, and their number (as
-- a `u32`).
pub process_cancel_order-returns :
    (is_zero : RaindexVault → Result String Bool) (zero : RaindexVault → Bool)
    (ds : OrderDataSource) (hash : ℕ) (order : RaindexOrder) (others : List RaindexOrder)
    (calldata : ByteString)
    → IsTested is_zero zero
    → ds.get_orders_by_hash hash ≡ ok (order ∷ others)
    → ds.get_remove_calldata order ≡ ok calldata
    → process_cancel_order is_zero ds hash
      ≡ ok (record {
        transactions = record { to = order.raindex; data' = calldata; value = 0 } ∷ [];
        summary = record {
          vaults_to_withdraw =
              length (returned zero (order.inputs_list ++ order.outputs_list)) % 2 ^ 32;
          tokens_returned = returned zero (order.inputs_list ++ order.outputs_list);
        };
      })
unfolding process_cancel_order
process_cancel_order-returns is_zero zero ds hash order others calldata tested found made =
    let vaults = order.inputs_list ++ order.outputs_list in
    let none_before : 0 + length (returned zero vaults) ≡ length (returned zero vaults) =
      omega arith in
    let loop : summarize is_zero (counted 0 []) vaults
        ≡ ok (counted (length (returned zero vaults)) (returned zero vaults)) =
      summarize-counted is_zero zero 0 [] vaults tested
      ∙ ap (λ k. ok (counted k (returned zero vaults))) none_before in
    rw (found, made, loop) refl
