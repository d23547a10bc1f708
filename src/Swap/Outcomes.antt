-- ===== src/Swap/Outcomes.antt =====
-- The two versions of the calldata request agree, and so do the two denominations of tokens that
-- are not wrapped.
use st0x_rest_api.Prelude.{
  map_ok, ◌≡◌, refl, Bool, true, false, ◌||◌, Option, none, some, [], ◌∷◌, String, if◌then◌else◌,
  is_some, Result, ok, err, ◌>>=◌, ok_or, to_option,
}
use st0x_rest_api.ApiError.{ApiError}
use st0x_rest_api.Floats.{FloatOps}
use st0x_rest_api.Denomination.{Denomination, wrapped, unwrapped, WrapRatioMap}
use st0x_rest_api.Swap.{
  SwapDataSource, SwapCalldataRequest, SwapCalldataV2Request, buy_up_to, SwapCalldataResponse,
}
use st0x_rest_api.Swap.Amounts.{
  CalldataRequestNormalization, amount_needs_wrapped_normalization, normalized_amount,
  normalize_values, normalize_with, ratio_or_one, normalize_calldata_request_values,
  normalize_calldata_response, parse_user_float,
}
use st0x_rest_api.Swap.Process.{
  SwapCalldataBuildRequest, from_v1, from_v2, from_mode, normalization_of, take_request,
  process_swap_calldata_build, process_swap_calldata, process_swap_calldata_v2,
}

-- The request of the second version that asks for what a request of the first does.
abbrev pub as_v2 : SwapCalldataRequest → SwapCalldataV2Request
as_v2 req = record {
  taker = req.taker;
  input_token = req.input_token;
  output_token = req.output_token;
  mode = buy_up_to;
  amount = req.output_amount;
  price_cap = req.maximum_io_ratio;
  denomination = req.denomination;
}

-- The same result, up to the error.
data Alike {A : Type 0} : Result ApiError A → Result ApiError A → Type 0 where
  both_ok : (a : A) → Alike (ok a) (ok a)
  both_err : (e e' : ApiError) → Alike (err e) (err e')

Alike-same : {A : Type 0} (r : Result ApiError A) → Alike r r
Alike-same (ok a) = both_ok a
Alike-same (err e) = both_err e e

Alike-bind :
    {A B : Type 0} {m m' : Result ApiError A} {f f' : A → Result ApiError B}
    → Alike m m'
    → ((a : A) → Alike (f a) (f' a))
    → Alike (m >>= f) (m' >>= f')
Alike-bind (both_ok a) k = k a
Alike-bind (both_err e e') k = both_err e e'

Alike-ok_or : {A : Type 0} (o : Option A) (e e' : ApiError) → Alike (ok_or o e) (ok_or o e')
Alike-ok_or none e e' = both_err e e'
Alike-ok_or (some a) e e' = both_ok a

Alike-if :
    {A : Type 0} (b : Bool) {x x' y y' : Result ApiError A}
    → Alike x x'
    → Alike y y'
    → Alike (if b then x else y) (if b then x' else y')
Alike-if true h k = h
Alike-if false h k = k

Alike-denomination :
    {A : Type 0} (d : Denomination) {x x' y y' : Result ApiError A}
    → Alike x x'
    → Alike y y'
    → Alike (elim d [ wrapped ↦ x | unwrapped ↦ y ]) (elim d [ wrapped ↦ x' | unwrapped ↦ y' ])
Alike-denomination wrapped h k = h
Alike-denomination unwrapped h k = k

Alike-options : {A : Type 0} {r r' : Result ApiError A} → Alike r r' → to_option r ≡ to_option r'
Alike-options (both_ok a) = refl
Alike-options (both_err e e') = refl

-- Two requests that differ in the names of their fields.
abbrev renamed : CalldataRequestNormalization → String → String → CalldataRequestNormalization
renamed req amount_field price_cap_field = record req {
  amount_field = amount_field;
  price_cap_field = price_cap_field;
}

module _ (ops : FloatOps) (req : CalldataRequestNormalization) (f g : String) where
  Alike-amount :
      (i o : Bool) (x y : ops.Float)
      → Alike (normalized_amount ops req i o x y) (normalized_amount ops (renamed req f g) i o x y)
  unfolding normalized_amount parse_user_float
  Alike-amount i o x y =
      Alike-if (amount_needs_wrapped_normalization req.mode i o)
        (Alike-bind (Alike-ok_or (ops.parse req.amount) _ _) λ amount. Alike-same _) (Alike-same _)

  Alike-values :
      (ratios : WrapRatioMap)
      → Alike (normalize_values ops req ratios) (normalize_values ops (renamed req f g) ratios)
  unfolding normalize_values parse_user_float
  Alike-values ratios = Alike-bind (Alike-same (ratio_or_one ops req.input_token ratios)) λ i.
      Alike-bind (Alike-same (ratio_or_one ops req.output_token ratios)) λ o.
        Alike-bind (Alike-ok_or (ops.parse req.price_cap) _ _)
          λ cap. Alike-bind (Alike-amount _ _ i o) λ amount. Alike-same _

  Alike-with :
      (ratios : WrapRatioMap)
      → Alike (normalize_with ops req ratios) (normalize_with ops (renamed req f g) ratios)
  unfolding normalize_with
  Alike-with ratios =
      Alike-if (is_some (ratios req.input_token) || is_some (ratios req.output_token))
        (Alike-values ratios) (Alike-same _)

  Alike-request :
      (ds : SwapDataSource)
      → Alike
          (normalize_calldata_request_values ops ds req)
          (normalize_calldata_request_values ops ds (renamed req f g))
  unfolding normalize_calldata_request_values
  Alike-request ds =
      Alike-denomination req.denomination (Alike-same _) (Alike-bind (Alike-same _) Alike-with)

-- A request of the first version is answered as the request of the second version with the mode
-- `buyUpTo` is: by the same calldata, or by an error in both.
pub process_swap_calldata-eq-v2 :
    (ops : FloatOps) (ds : SwapDataSource) (req : SwapCalldataRequest)
    → to_option (process_swap_calldata ops ds req)
      ≡ to_option (process_swap_calldata_v2 ops ds (as_v2 req))
unfolding process_swap_calldata process_swap_calldata_v2 process_swap_calldata_build from_v1 from_v2
    from_mode normalization_of take_request
process_swap_calldata-eq-v2 ops ds req = Alike-options (
    Alike-bind (Alike-same _) λ u.
      Alike-bind (Alike-request ops (normalization_of ops ds (from_v1 req)) "amount" "price_cap" ds)
        λ v. Alike-same _)

module _ (ops : FloatOps) (ratios : WrapRatioMap) (req : CalldataRequestNormalization) where
  normalize_with-plain :
      ratios req.input_token ≡ none
      → ratios req.output_token ≡ none
      → normalize_with ops req ratios ≡ ok (req.amount, req.price_cap, ratios)
  unfolding normalize_with
  normalize_with-plain hi ho = rw (hi, ho) refl

-- A response under the label of the unwrapped denomination.
abbrev pub relabelled : SwapCalldataResponse → SwapCalldataResponse
relabelled response = record response { denomination = unwrapped }

bind-map_ok :
    {A B C : Type 0} (m : Result ApiError A) {f : A → Result ApiError B} (g : A → Result ApiError C)
    (k : C → B)
    → ((a : A) → f a ≡ map_ok k (g a))
    → (m >>= f) ≡ map_ok k (m >>= g)
bind-map_ok (ok a) g k h = h a
bind-map_ok (err e) g k h = refl

-- A swap in the unwrapped denomination of two tokens that are not wrapped is the swap in the
-- wrapped denomination, up to the label of the response.
pub process_swap_calldata_build-plain :
    (ops : FloatOps) (ds : SwapDataSource) (req : SwapCalldataBuildRequest) (ratios : WrapRatioMap)
    → ds.get_wrap_ratios_for_tokens (req.input_token ∷ req.output_token ∷ []) ≡ ok ratios
    → ratios req.input_token ≡ none
    → ratios req.output_token ≡ none
    → process_swap_calldata_build ops ds (record req { denomination = unwrapped })
      ≡ map_ok relabelled
          (process_swap_calldata_build ops ds (record req { denomination = wrapped }))
unfolding process_swap_calldata_build normalize_calldata_request_values normalize_calldata_response
    normalization_of take_request
process_swap_calldata_build-plain ops ds req ratios h hi ho =
    bind-map_ok (ds.validate_supported_tokens req.input_token req.output_token) _ relabelled λ u.
      rw
        (
          h,
          normalize_with-plain ops ratios
              (normalization_of ops ds (record req { denomination = unwrapped })) hi ho,
        )
        (bind-map_ok (ds.get_calldata (take_request ops ds req req.amount req.price_cap)) _
          relabelled λ response. rw hi refl)
