-- ===== src/Swap/Scaling.antt =====
-- A price cap that is taken to the wrapped denomination comes back.
use st0x_rest_api.Prelude.{
  ℕ, ◌≡◌, refl, sym, ap, ◌∙◌, inl, inr, false, Option, none, some, String, str_eq, eq_iff, ok,
  ok_or, Bool-cases, arith,
}
use st0x_rest_api.ApiError.{ApiError}
use st0x_rest_api.Floats.{FloatOps}
use st0x_rest_api.Denomination.{
  WrapRatioValue, WrapRatioMap, parse_ratio, parse_decimal_float, format_decimal_float,
  ratio_for_token, convert_wrapped_io_ratio,
}
use st0x_rest_api.Swap.Amounts.{
  CalldataRequestNormalization, ratio_or_one, normalized_io_ratio, parse_user_float, format_float,
  normalize_values,
}

-- What the round trip needs of the floats: the text of a number is read as that number, and no
-- number is read from a dash.
pub record IsFaithful (ops : FloatOps) : Type 0 where
  pub reads_back : (x : ops.Float) (t : String) → ops.format x ≡ some t → ops.parse t ≡ some x
  pub dash : ops.parse "-" ≡ none

module _ (ops : FloatOps) (faithful : IsFaithful ops) where
  not_dash : (x : ops.Float) (t : String) → ops.format x ≡ some t → str_eq t "-" ≡ false
  not_dash x t h = elim (Bool-cases (str_eq t "-")) [
    | inl same ↦
        let it : t ≡ "-" = (eq_iff t "-").0 same in
        cc (sym (faithful.reads_back x t h) ∙ ap ops.parse it ∙ faithful.dash)
    | inr other ↦ other
  ]

  ok_or-eq-ok :
      {A : Type 0} (m : Option A) (e e' : ApiError) (a : A) → ok_or m e ≡ ok a → ok_or m e' ≡ ok a
  ok_or-eq-ok none e e' a h = cc
  ok_or-eq-ok (some b) e e' a h = cc

  same_ratio :
      (found : Option WrapRatioValue) (r : ops.Float) (e e' : ApiError)
      → (elim found [ some ratio ↦ parse_ratio ops ratio | none ↦ ok_or (ops.parse "1") e ]) ≡ ok r
      → (elim found [ some ratio ↦ parse_ratio ops ratio | none ↦ ok_or (ops.parse "1") e' ]) ≡ ok r
  same_ratio none r e e' h = ok_or-eq-ok (ops.parse "1") e e' r h
  same_ratio (some ratio) r e e' h = h

  ratios_agree :
      (token : ℕ) (ratios : WrapRatioMap) (r : ops.Float)
      → ratio_or_one ops token ratios ≡ ok r
      → ratio_for_token ops token ratios ≡ ok r
  unfolding ratio_or_one ratio_for_token
  ratios_agree token ratios r h = same_ratio (ratios token) r _ _ h

  io_ratio_parts :
      (req : CalldataRequestNormalization) (ratios : WrapRatioMap) (i o p : ops.Float)
      (amount io_text : String)
      → ratio_or_one ops req.input_token ratios ≡ ok i
      → ratio_or_one ops req.output_token ratios ≡ ok o
      → ops.parse req.price_cap ≡ some p
      → normalize_values ops req ratios ≡ ok (amount, io_text, ratios)
      → (s w : ops.Float) × (ops.mul p o ≡ some s)
        × (ops.div s i ≡ some w)
        × (ops.format w ≡ some io_text)
  unfolding normalize_values normalized_io_ratio parse_user_float format_float
  io_ratio_parts req ratios i o p amount io_text hi ho hp h = ground arith

-- A price cap `p` in the unwrapped denomination, taken to the wrapped one by a request's
-- normalization, is `p` again when the conversion of an order's price takes it back, provided the
-- float operations on it are exact: the division by the input's ratio and the multiplication by
-- the output's can be undone.
pub normalize_values-convert_wrapped_io_ratio :
    (ops : FloatOps) (req : CalldataRequestNormalization) (ratios : WrapRatioMap)
    (i o p : ops.Float) (amount io_text cap_text : String)
    → IsFaithful ops
    → ratio_or_one ops req.input_token ratios ≡ ok i
    → ratio_or_one ops req.output_token ratios ≡ ok o
    → ops.parse req.price_cap ≡ some p
    → ops.format p ≡ some cap_text
    → ((s w : ops.Float) → ops.div s i ≡ some w → ops.mul w i ≡ some s)
    → ((s : ops.Float) → ops.mul p o ≡ some s → ops.div s o ≡ some p)
    → normalize_values ops req ratios ≡ ok (amount, io_text, ratios)
    → convert_wrapped_io_ratio ops io_text req.input_token req.output_token ratios ≡ ok cap_text
unfolding convert_wrapped_io_ratio parse_decimal_float format_decimal_float
normalize_values-convert_wrapped_io_ratio ops req ratios i o p amount io_text cap_text faithful hi
      ho hp hf exact undo h =
    let (s, w, up, down, text) =
      io_ratio_parts ops faithful req ratios i o p amount io_text hi ho hp h in
    rw
      (
        not_dash ops faithful w io_text text,
        faithful.reads_back w io_text text,
        ratios_agree ops faithful req.input_token ratios i hi,
        ratios_agree ops faithful req.output_token ratios o ho,
        exact s w down,
        undo s up,
        hf,
      )
      refl
