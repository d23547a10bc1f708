-- ===== src/Trades/Totals.antt =====
-- The totals of a transaction's trades are the sum of the inputs and the negated sum of the
-- outputs.
use st0x_rest_api.Prelude.{
  ◌≡◌, refl, sym, ap, ◌∙◌, List, [], ◌∷◌, Option, some, Result, ok, ◌>>=◌, ok_or, if◌then◌else◌,
}
use st0x_rest_api.ApiError.{ApiError, internal}
use st0x_rest_api.Floats.{FloatOps}
use st0x_rest_api.Floats.Exact.{IsExact, sum_from}
use st0x_rest_api.Denomination.{parse_decimal_float, format_decimal_float}
use st0x_rest_api.Trades.ByTx.{
  TradeByTxEntry, TradesTotals, add_entries, average_of, totals_from_trade_entries, failed_totals,
}

-- The amounts of the entries are texts of these numbers.
abbrev pub Reads : (ops : FloatOps) → List TradeByTxEntry → List (ops.Float × ops.Float) → Type 0
Reads ops [] [] = Unit
Reads ops (trade ∷ trades) (v ∷ values) =
    (ops.parse trade.result.input_amount ≡ some v.0)
    × (ops.parse trade.result.output_amount ≡ some v.1)
    × Reads ops trades values
Reads ops [] (v ∷ values) = ⊥
Reads ops (trade ∷ trades) [] = ⊥

abbrev pub inputs_of : {A : Type 0} → List (A × A) → List A
inputs_of [] = []
inputs_of (v ∷ values) = v.0 ∷ inputs_of values

abbrev pub outputs_of : {A : Type 0} → List (A × A) → List A
outputs_of [] = []
outputs_of (v ∷ values) = v.1 ∷ outputs_of values

-- The totals of two sums: a ratio of zero where there is no output, and their quotient otherwise.
abbrev pub report :
    (ops : FloatOps) → ops.Float → ops.Float → ops.Float → Result ApiError TradesTotals
report ops nought input output = do
  ratio ←
      (ok_or (ops.eq output nought) failed_totals >>= λ nothing.
      if nothing then ok nought else ok_or (ops.div input output) failed_totals)
  total_input ← ok_or (ops.format input) (internal "failed to format total_input")
  total_output ← ok_or (ops.format output) (internal "failed to format total_output")
  average ← ok_or (ops.format ratio) (internal "failed to format average_io_ratio")
  ok (record {
    total_input_amount = total_input;
    total_output_amount = total_output;
    average_io_ratio = average;
  })

module _ (ops : FloatOps) (e : IsExact ops) where
  add_entries-sums :
      (trades : List TradeByTxEntry) (values : List (ops.Float × ops.Float)) (x y : ops.Float)
      → Reads ops trades values
      → add_entries ops e.nought x (e.negated y) trades
        ≡ ok (sum_from e x (inputs_of values), e.negated (sum_from e y (outputs_of values)))
  unfolding add_entries parse_decimal_float
  add_entries-sums [] [] x y h = refl
  add_entries-sums (trade ∷ trades) (v ∷ values) x y (h, k, hs) =
      rw
        (
          h,
          k,
          e.sub_is v.1,
          e.add_is x v.0,
          e.add_is (e.negated y) (e.negated v.1),
          ← e.negated-plus y v.1,
        )
        (add_entries-sums trades values (e.plus x v.0) (e.plus y v.1) hs)
  add_entries-sums [] (v ∷ values) x y h = elim h [ ]
  add_entries-sums (trade ∷ trades) [] x y h = elim h [ ]

-- The computation from what the package returns for zero.
abbrev totals_at :
    (ops : FloatOps) → Option ops.Float → List TradeByTxEntry → Result ApiError TradesTotals
totals_at ops zero trades = do
  input_from ← ok_or zero failed_totals
  output_from ← ok_or zero failed_totals
  nought ← ok_or zero failed_totals
  sums ← add_entries ops nought input_from output_from trades
  average ←
      (ok_or zero failed_totals >>= λ none_left.
      ok_or (ops.eq sums.1 none_left) failed_totals >>= λ nothing.
      if nothing then ok_or zero failed_totals else ok_or (ops.div sums.0 sums.1) failed_totals)
  total_input ← ok_or (ops.format sums.0) (internal "failed to format total_input")
  total_output ← ok_or (ops.format sums.1) (internal "failed to format total_output")
  average_io_ratio ← ok_or (ops.format average) (internal "failed to format average_io_ratio")
  ok (record {
    total_input_amount = total_input;
    total_output_amount = total_output;
    average_io_ratio = average_io_ratio;
  })

totals_at-zero :
    (ops : FloatOps) (trades : List TradeByTxEntry)
    → totals_from_trade_entries ops trades ≡ totals_at ops ops.zero trades
unfolding totals_from_trade_entries average_of format_decimal_float
totals_at-zero ops trades = refl

-- With exact floats, the totals of entries whose amounts can be read are the sum of the inputs, the
-- negated sum of the outputs, and the quotient of the two, or zero where there is no output.
pub totals_from_trade_entries-sums :
    (ops : FloatOps) (e : IsExact ops) (trades : List TradeByTxEntry)
    (values : List (ops.Float × ops.Float))
    → Reads ops trades values
    → totals_from_trade_entries ops trades
      ≡ report ops e.nought
          (sum_from e e.nought (inputs_of values))
          (e.negated (sum_from e e.nought (outputs_of values)))
totals_from_trade_entries-sums ops e trades values h =
    let start : add_entries ops e.nought e.nought e.nought trades
        ≡ ok (
          sum_from e e.nought (inputs_of values),
          e.negated (sum_from e e.nought (outputs_of values)),
        ) =
      ap (λ y. add_entries ops e.nought e.nought y trades) (sym e.negated-nought)
      ∙ add_entries-sums ops e trades values e.nought e.nought h in
    totals_at-zero ops trades ∙ ap (λ zero. totals_at ops zero trades) e.zero_is ∙ rw start refl
