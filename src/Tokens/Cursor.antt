-- ===== src/Tokens/Cursor.antt =====
-- src/routes/token_details.rs: the loops that read all rows of a subgraph, page after page, each page
-- asked for by the identifier of the last row before it; and the aggregate that they make.
use st0x_rest_api.Prelude.{
  ℕ, zero, suc, ◌+◌, ◌^◌, Option, none, some, List, [], ◌∷◌, String, ltb, if◌then◌else◌, length,
  Result, ok, err, ◌>>=◌, ok_or,
}
use st0x_rest_api.ApiError.{ApiError, internal}

abbrev pub sft_page_size : ℕ
sft_page_size = 1000

pub record SftCountRow : Type 0 where
  pub id : String

pub record SftAmountRow : Type 0 where
  pub id : String
  pub amount : String

-- What all the loops do: `step` adds a page to what was gathered before. The fuel bounds the number
-- of pages; without fuel there is no result.
module _ {Row Acc : Type 0} (id : Row → String) (step : Acc → List Row → Result ApiError Acc)
    (no_cursor : ApiError) (page : String → Result ApiError (List Row)) where
  -- The identifier of the last row, or the text given.
  abbrev pub last_or : String → List Row → String
  last_or start [] = start
  last_or start (row ∷ rows) = last_or (id row) rows

  -- The next page after a full one.
  abbrev pub go_on :
      (String → Acc → Option (Result ApiError Acc)) → List Row → Acc → Option (Result ApiError Acc)
  go_on later [] total = some (err no_cursor)
  go_on later (row ∷ rows) total = later (last_or (id row) rows) total

  abbrev pub after_step :
      (String → Acc → Option (Result ApiError Acc))
      → List Row
      → Result ApiError Acc
      → Option (Result ApiError Acc)
  after_step later rows (err e) = some (err e)
  after_step later rows (ok total) =
      if ltb (length rows) sft_page_size then some (ok total) else go_on later rows total

  abbrev pub after_page :
      (String → Acc → Option (Result ApiError Acc))
      → Acc
      → Result ApiError (List Row)
      → Option (Result ApiError Acc)
  after_page later total (err e) = some (err e)
  after_page later total (ok rows) = after_step later rows (step total rows)

  unfoldable pub read_pages : ℕ → String → Acc → Option (Result ApiError Acc)
  read_pages zero last_id total = none
  read_pages (suc fuel) last_id total = after_page (read_pages fuel) total (page last_id)

-- `checked_add` of `u64` and of `U256`
abbrev pub checked_add_u64 : ℕ → ℕ → Option ℕ
checked_add_u64 a b = if ltb (a + b) (2 ^ 64) then some (a + b) else none

abbrev pub checked_add_u256 : ℕ → ℕ → Option ℕ
checked_add_u256 a b = if ltb (a + b) (2 ^ 256) then some (a + b) else none

unfoldable pub count_rows : ApiError → ℕ → List SftCountRow → Result ApiError ℕ
count_rows overflow total rows = ok_or (checked_add_u64 total (length rows)) overflow

unfoldable pub count_token_holders :
    (String → Result ApiError (List SftCountRow)) → ℕ → Option (Result ApiError ℕ)
count_token_holders page fuel =
    read_pages (λ row. row.id) (count_rows (internal "token holder count overflow"))
      (internal "token holder page missing cursor row") page fuel "" 0

unfoldable pub count_share_transfers :
    (String → Result ApiError (List SftCountRow)) → ℕ → Option (Result ApiError ℕ)
count_share_transfers page fuel =
    read_pages (λ row. row.id) (count_rows (internal "share transfer count overflow"))
      (internal "share transfer page missing cursor row") page fuel "" 0

-- `U256::from_str` is given.
module _ (parse_u256 : String → Option ℕ) where
  unfoldable pub parse_u256_decimal : String → Result ApiError ℕ
  parse_u256_decimal value = ok_or (parse_u256 value) (internal "invalid amount from subgraph")

  unfoldable pub add_amount : ℕ → String → Result ApiError ℕ
  add_amount total value = do
    amount ← parse_u256_decimal value
    ok_or (checked_add_u256 total amount)
        (internal "amount overflow while aggregating token details")

  unfoldable pub add_amounts : ℕ → List SftAmountRow → Result ApiError ℕ
  add_amounts total [] = ok total
  add_amounts total (row ∷ rows) = do next ← add_amount total row.amount; add_amounts next rows

  unfoldable pub sum_deposit_volume :
      (String → Result ApiError (List SftAmountRow)) → ℕ → Option (Result ApiError ℕ)
  sum_deposit_volume page fuel =
      read_pages (λ row. row.id) add_amounts (internal "deposit page missing cursor row") page fuel
        "" 0

  unfoldable pub sum_withdraw_volume :
      (String → Result ApiError (List SftAmountRow)) → ℕ → Option (Result ApiError ℕ)
  sum_withdraw_volume page fuel =
      read_pages (λ row. row.id) add_amounts (internal "withdraw page missing cursor row") page fuel
        "" 0

pub record TokenDetailsAggregate : Type 0 where
  pub holder_count : ℕ
  pub transfer_count : ℕ
  pub deposit_volume : ℕ
  pub withdraw_volume : ℕ

-- The pages of the four queries for one vault.
pub record SftPages : Type 0 where
  pub holders : String → Result ApiError (List SftCountRow)
  pub transfers : String → Result ApiError (List SftCountRow)
  pub deposits : String → Result ApiError (List SftAmountRow)
  pub withdraws : String → Result ApiError (List SftAmountRow)

-- `try_join!` of the four loops, which are polled side by side: if some fail, the error is that of
-- the one that fails first, which `earliest` picks from the loops' results.
abbrev join_all :
    (Result ApiError ℕ → Result ApiError ℕ → Result ApiError ℕ → Result ApiError ℕ → ApiError)
    → Result ApiError ℕ
    → Result ApiError ℕ
    → Result ApiError ℕ
    → Result ApiError ℕ
    → Result ApiError TokenDetailsAggregate
join_all earliest (ok holders) (ok transfers) (ok deposits) (ok withdraws) = ok (record {
  holder_count = holders;
  transfer_count = transfers;
  deposit_volume = deposits;
  withdraw_volume = withdraws;
})
join_all earliest a b c d = err (earliest a b c d)

abbrev join_fueled :
    (Result ApiError ℕ → Result ApiError ℕ → Result ApiError ℕ → Result ApiError ℕ → ApiError)
    → Option (Result ApiError ℕ)
    → Option (Result ApiError ℕ)
    → Option (Result ApiError ℕ)
    → Option (Result ApiError ℕ)
    → Option (Result ApiError TokenDetailsAggregate)
join_fueled earliest (some a) (some b) (some c) (some d) = some (join_all earliest a b c d)
join_fueled earliest a b c d = none

unfoldable pub read_token_details_aggregate_uncached :
    (String → Option ℕ)
    → (Result ApiError ℕ → Result ApiError ℕ → Result ApiError ℕ → Result ApiError ℕ → ApiError)
    → SftPages
    → ℕ
    → Option (Result ApiError TokenDetailsAggregate)
read_token_details_aggregate_uncached parse_u256 earliest pages fuel =
    join_fueled earliest (count_token_holders pages.holders fuel)
      (count_share_transfers pages.transfers fuel)
      (sum_deposit_volume parse_u256 pages.deposits fuel)
      (sum_withdraw_volume parse_u256 pages.withdraws fuel)
