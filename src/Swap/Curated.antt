-- ===== src/Swap/Curated.antt =====
-- Only swaps of curated tokens are answered.
use mathlib.Core.Path.{subst}
use mathlib.Core.List.{Memᴰ}
use st0x_rest_api.Prelude.{
  ℕ, ◌≡◌, refl, sym, ◌∙◌, inl, inr, Bool, true, false, ◌&&◌, ◌||◌, Option, none, some, List, [],
  ◌∷◌, ◌==◌, ==_iff, if◌then◌else◌, any, Result, ok, err, >>=-eq-ok, Bool-cases,
}
use st0x_rest_api.ApiError.{ApiError}
use st0x_rest_api.Sdk.{TokenInfo}
use st0x_rest_api.Floats.{FloatOps}
use st0x_rest_api.Swap.{
  SwapQuoteRequest, SwapQuoteResponse, SwapDataSource, SwapCalldataResponse,
  validate_supported_tokens,
}
use st0x_rest_api.Swap.Process.{
  Simulation, process_swap_quote, SwapCalldataBuildRequest, process_swap_calldata_build,
}

-- A curated token has the address.
abbrev pub IsCurated : ℕ → List TokenInfo → Type 0
IsCurated a tokens = (token : TokenInfo) × Memᴰ token tokens × (token.address ≡ a)

any-IsCurated :
    (a : ℕ) (tokens : List TokenInfo)
    → any (λ token. token.address == a) tokens ≡ true
    → IsCurated a tokens
any-IsCurated a [] h = cc
any-IsCurated a (t ∷ tokens) h = elim (Bool-cases (t.address == a)) [
  | inl hit ↦ (t, Memᴰ.head refl, (==_iff _ _).0 hit)
  | inr miss ↦
      let (u, m, e) =
        any-IsCurated a tokens
          (subst (λ b. (b || any (λ token. token.address == a) tokens) ≡ true) miss h) in
      (u, Memᴰ.tail m, e)
]

abbrev checked : Bool → ApiError → Result ApiError (Unit {0})
checked b e = if b then ok tt else err e

both_hold : (x y : Bool) (e : ApiError) → checked (x && y) e ≡ ok tt → (x ≡ true) × (y ≡ true)
both_hold true true e h = (refl, refl)
both_hold true false e h = cc
both_hold false y e h = cc

validate-IsCurated :
    (tokens : Option (List TokenInfo)) (i o : ℕ)
    → validate_supported_tokens tokens i o ≡ ok tt
    → (curated : List TokenInfo) × (tokens ≡ some curated)
      × IsCurated i curated
      × IsCurated o curated
unfolding validate_supported_tokens
validate-IsCurated none i o h = cc
validate-IsCurated (some tokens) i o h =
    let (first, second) = both_hold _ _ _ h in
    (tokens, refl, any-IsCurated i tokens first, any-IsCurated o tokens second)

-- Calldata is only returned for two curated tokens.
pub process_swap_calldata_build-IsCurated :
    (ops : FloatOps) (ds : SwapDataSource) (tokens : Option (List TokenInfo))
    (req : SwapCalldataBuildRequest) (response : SwapCalldataResponse)
    → ((i o : ℕ) → ds.validate_supported_tokens i o ≡ validate_supported_tokens tokens i o)
    → process_swap_calldata_build ops ds req ≡ ok response
    → (curated : List TokenInfo) × (tokens ≡ some curated)
      × IsCurated req.input_token curated
      × IsCurated req.output_token curated
unfolding process_swap_calldata_build
process_swap_calldata_build-IsCurated ops ds tokens req response same h =
    let (u, valid, _) =
      >>=-eq-ok (ds.validate_supported_tokens req.input_token req.output_token) _ h in
    validate-IsCurated tokens req.input_token req.output_token
      (sym (same req.input_token req.output_token) ∙ valid)

-- A quote is only given for two curated tokens.
pub process_swap_quote-IsCurated :
    (ops : FloatOps) (ds : SwapDataSource) (tokens : Option (List TokenInfo))
    (simulate : List ds.Candidate → ops.Float → ops.Float → Option (Simulation ops.Float))
    (req : SwapQuoteRequest) (response : SwapQuoteResponse)
    → ((i o : ℕ) → ds.validate_supported_tokens i o ≡ validate_supported_tokens tokens i o)
    → process_swap_quote ops ds simulate req ≡ ok response
    → (curated : List TokenInfo) × (tokens ≡ some curated)
      × IsCurated req.input_token curated
      × IsCurated req.output_token curated
unfolding process_swap_quote
process_swap_quote-IsCurated ops ds tokens simulate req response same h =
    let (u, valid, _) =
      >>=-eq-ok (ds.validate_supported_tokens req.input_token req.output_token) _ h in
    validate-IsCurated tokens req.input_token req.output_token
      (sym (same req.input_token req.output_token) ∙ valid)
