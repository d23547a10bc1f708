-- ===== src/Denomination.antt =====
-- src/denomination.rs: amounts and prices in wrapped tokens, converted to the underlying assets by
-- the wrap ratios of the tokens. A token without a ratio is its own asset.
use st0x_rest_api.Prelude.{
  ℕ, none, some, String, str_eq, if◌then◌else◌, FnMap, Result, ok, ◌>>=◌, ok_or,
}
use Prim.Native.String
use st0x_rest_api.ApiError.{ApiError, internal}
use st0x_rest_api.Floats.{FloatOps}

-- src/types/common.rs
pub data Denomination : Type 0 where
  wrapped unwrapped : Denomination

-- src/wrap_ratio.rs
pub record WrapRatioValue : Type 0 where
  pub share_address : ℕ
  pub assets_per_share : String

abbrev pub WrapRatioMap : Type 0
WrapRatioMap = FnMap WrapRatioValue

abbrev pub concat : String → String → String
concat a b = String.◌++◌ a b

module _ (ops : FloatOps) where
  open ops use {Float}

  unfoldable pub parse_ratio : WrapRatioValue → Result ApiError Float
  parse_ratio ratio =
      ok_or (ops.parse ratio.assets_per_share) (internal "failed to read wrapped token ratio")

  unfoldable pub parse_decimal_float : String → String → Result ApiError Float
  parse_decimal_float value label =
      ok_or (ops.parse value) (internal (concat "failed to parse " label))

  unfoldable pub format_decimal_float : Float → String → Result ApiError String
  format_decimal_float value label =
      ok_or (ops.format value) (internal (concat "failed to format " label))

  unfoldable pub ratio_for_token : ℕ → WrapRatioMap → Result ApiError Float
  ratio_for_token token ratios = elim (ratios token) [
    | some ratio ↦ parse_ratio ratio
    | none ↦ ok_or (ops.parse "1") (internal "failed to convert denomination")
  ]

  -- The conversion of an amount by a ratio that was found.
  convert_by : WrapRatioValue → String → Result ApiError String
  convert_by ratio amount = do
    a ← parse_decimal_float amount "amount"
    r ← parse_ratio ratio
    converted ← ok_or (ops.mul a r) (internal "failed to convert wrapped amount")
    format_decimal_float converted "amount"

  unfoldable pub convert_wrapped_amount_for_token :
      String → ℕ → WrapRatioMap → Result ApiError String
  unfolding convert_by
  convert_wrapped_amount_for_token amount token ratios = elim (ratios token) [
    | none ↦ ok amount
    | some ratio ↦ convert_by ratio amount
  ]

  unfoldable pub convert_wrapped_io_ratio : String → ℕ → ℕ → WrapRatioMap → Result ApiError String
  convert_wrapped_io_ratio io_ratio input_token output_token ratios =
      if str_eq io_ratio "-" then ok io_ratio else (do
        price ← parse_decimal_float io_ratio "io_ratio"
        input_assets ← ratio_for_token input_token ratios
        output_assets ← ratio_for_token output_token ratios
        scaled ← ok_or (ops.mul price input_assets) (internal "failed to convert wrapped IO ratio")
        converted ←
            ok_or (ops.div scaled output_assets) (internal "failed to convert wrapped IO ratio")
        format_decimal_float converted "io_ratio")
