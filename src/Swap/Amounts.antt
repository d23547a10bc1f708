-- ===== src/Swap/Amounts.antt =====
-- src/routes/swap/denomination.rs: amounts and price caps of a swap between the denominations.
use st0x_rest_api.Prelude.{
  ℕ, Bool, ◌||◌, none, some, [], ◌∷◌, String, if◌then◌else◌, is_some, Result, ok, ◌>>=◌, ok_or,
}
use st0x_rest_api.ApiError.{ApiError, internal, bad_request}
use st0x_rest_api.Floats.{FloatOps}
use st0x_rest_api.Denomination.{
  Denomination, wrapped, unwrapped, WrapRatioValue, WrapRatioMap, concat, parse_ratio,
}
use st0x_rest_api.Swap.{
  SwapDataSource, SwapCalldataResponse, TakeOrdersMode, take_buy_exact, take_buy_up_to,
  take_spend_exact, take_spend_up_to,
}

pub record CalldataRequestNormalization : Type 0 where
  pub denomination : Denomination
  pub input_token : ℕ
  pub output_token : ℕ
  pub mode : TakeOrdersMode
  pub amount : String
  pub amount_field : String
  pub price_cap : String
  pub price_cap_field : String

unfoldable pub amount_needs_wrapped_normalization : TakeOrdersMode → Bool → Bool → Bool
amount_needs_wrapped_normalization take_buy_exact i o = o
amount_needs_wrapped_normalization take_buy_up_to i o = o
amount_needs_wrapped_normalization take_spend_exact i o = i
amount_needs_wrapped_normalization take_spend_up_to i o = i

module _ (ops : FloatOps) where
  open ops use {Float}

  unfoldable pub amount_ratio : TakeOrdersMode → Float → Float → Float
  amount_ratio take_buy_exact i o = o
  amount_ratio take_buy_up_to i o = o
  amount_ratio take_spend_exact i o = i
  amount_ratio take_spend_up_to i o = i

  unfoldable pub parse_user_float : String → String → Result ApiError Float
  parse_user_float value field = ok_or (ops.parse value) (bad_request (concat "invalid " field))

  unfoldable pub parse_internal_float : String → String → Result ApiError Float
  parse_internal_float value field =
      ok_or (ops.parse value) (internal (concat "failed to read " field))

  unfoldable pub format_float : Float → String → Result ApiError String
  format_float value label = ok_or (ops.format value) (internal (concat "failed to format " label))

  unfoldable pub scale_by : WrapRatioValue → Float → Result ApiError Float
  scale_by ratio amount = do
    r ← parse_ratio ops ratio
    ok_or (ops.mul amount r) (internal "failed to normalize wrapped token amount")

  -- The amount in the underlying asset of the token, on floats.
  unfoldable pub convert_wrapped_amount : Float → ℕ → WrapRatioMap → Result ApiError Float
  convert_wrapped_amount amount token ratios = elim (ratios token) [
    | some ratio ↦ scale_by ratio amount
    | none ↦ ok amount
  ]

  unfoldable pub ratio_or_one : ℕ → WrapRatioMap → Result ApiError Float
  ratio_or_one token ratios = elim (ratios token) [
    | some ratio ↦ parse_ratio ops ratio
    | none ↦ ok_or (ops.parse "1") (internal "failed to normalize denomination")
  ]

  unfoldable pub normalize_quote_amounts :
      SwapDataSource → Denomination → ℕ → ℕ → Float → Float → Result ApiError (Float × Float)
  normalize_quote_amounts ds wrapped input_token output_token estimated_input estimated_output =
      ok (estimated_input, estimated_output)
  normalize_quote_amounts ds unwrapped input_token output_token estimated_input estimated_output =
      do
        ratios ← ds.get_wrap_ratios_for_tokens (input_token ∷ output_token ∷ [])
        converted_input ← convert_wrapped_amount estimated_input input_token ratios
        converted_output ← convert_wrapped_amount estimated_output output_token ratios
        ok (converted_input, converted_output)

  -- The amount of the request in shares, where its mode asks for it.
  unfoldable pub normalized_amount :
      CalldataRequestNormalization → Bool → Bool → Float → Float → Result ApiError String
  normalized_amount req input_is_wrapped output_is_wrapped i o =
      if amount_needs_wrapped_normalization req.mode input_is_wrapped output_is_wrapped
      then (do
        amount ← parse_user_float req.amount req.amount_field
        wrapped_amount ←
            ok_or (ops.div amount (amount_ratio req.mode i o))
              (internal "failed to normalize amount")
        format_float wrapped_amount "amount")
      else ok req.amount

  -- `price_cap.mul(o).and_then(|ratio| ratio.div(i))`
  unfoldable pub normalized_io_ratio : Float → Float → Float → Result ApiError Float
  normalized_io_ratio price_cap i o = do
    scaled ← ok_or (ops.mul price_cap o) (internal "failed to normalize IO ratio")
    ok_or (ops.div scaled i) (internal "failed to normalize IO ratio")

  -- The part after the ratios have been read, where one of the tokens is wrapped.
  unfoldable pub normalize_values :
      CalldataRequestNormalization → WrapRatioMap → Result ApiError (String × String × WrapRatioMap)
  normalize_values req ratios = do
    i ← ratio_or_one req.input_token ratios
    o ← ratio_or_one req.output_token ratios
    price_cap ← parse_user_float req.price_cap req.price_cap_field
    amount ←
        normalized_amount req (is_some (ratios req.input_token)) (is_some (ratios req.output_token))
          i o
    io_ratio ← normalized_io_ratio price_cap i o
    io_text ← format_float io_ratio "IO ratio"
    ok (amount, io_text, ratios)

  unfoldable pub normalize_with :
      CalldataRequestNormalization → WrapRatioMap → Result ApiError (String × String × WrapRatioMap)
  normalize_with req ratios =
      if is_some (ratios req.input_token) || is_some (ratios req.output_token)
      then normalize_values req ratios
      else ok (req.amount, req.price_cap, ratios)

  unfoldable pub normalize_calldata_request_values :
      SwapDataSource
      → CalldataRequestNormalization
      → Result ApiError (String × String × WrapRatioMap)
  normalize_calldata_request_values ds req = elim req.denomination [
    | wrapped ↦ ok (req.amount, req.price_cap, λ token. none)
    | unwrapped ↦
        ds.get_wrap_ratios_for_tokens (req.input_token ∷ req.output_token ∷ []) >>= λ ratios.
        normalize_with req ratios
  ]

  -- The estimated input in the underlying asset, where the token is wrapped.
  unfoldable pub unwrapped_input :
      WrapRatioMap → ℕ → SwapCalldataResponse → Result ApiError SwapCalldataResponse
  unwrapped_input ratios input_token response = do
    estimated_input ← parse_internal_float response.estimated_input "estimated_input"
    converted ← convert_wrapped_amount estimated_input input_token ratios
    text ← format_float converted "estimated input"
    ok (record response { estimated_input = text })

  unfoldable pub normalize_calldata_response :
      WrapRatioMap → Denomination → ℕ → SwapCalldataResponse → Result ApiError SwapCalldataResponse
  normalize_calldata_response ratios wrapped input_token response =
      ok (record response { denomination = wrapped })
  normalize_calldata_response ratios unwrapped input_token response =
      let response' = record response { denomination = unwrapped } in
      if is_some (ratios input_token)
      then unwrapped_input ratios input_token response'
      else ok response'
