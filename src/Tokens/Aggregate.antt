-- ===== src/Tokens/Aggregate.antt =====
-- The aggregate of a token counts and sums all the rows of the subgraph.
use mathlib.Core.Path.{subst}
use st0x_rest_api.Prelude.{
  ℕ, zero, suc, ◌+◌, ◌-◌, ◌*◌, ◌^◌, ◌<◌, ◌≤◌, ◌≡◌, refl, sym, ap, ◌∙◌, inl, inr, true, false,
  Option, some, List, [], ◌∷◌, ◌++◌, String, ltb, lt→ltb, length, take, drop, min, unwrap_or,
  Result, ok, All, Bool-cases, length-append, length-take, length-drop, take_all, take-drop,
  append_assoc, arith,
}
use st0x_rest_api.ApiError.{ApiError, internal}
use st0x_rest_api.Tokens.Cursor.{
  sft_page_size, SftCountRow, SftAmountRow, last_or, go_on, read_pages, count_rows,
  count_token_holders, count_share_transfers, parse_u256_decimal, add_amount, add_amounts,
  sum_deposit_volume, sum_withdraw_volume, SftPages, read_token_details_aggregate_uncached,
}

few_left :
    (n t d fuel : ℕ)
    → t ≡ min 1000 n
    → d ≡ n - 1000
    → ltb t 1000 ≡ false
    → n < suc fuel * 1000
    → d < fuel * 1000
few_left n t d fuel h k full enough =
    let many : 1000 ≤ t = ground arith in
    let long : 1000 ≤ n = ground arith in omega (arith, k, enough, long)

one_page : (n t : ℕ) → t ≡ min 1000 n → ltb t 1000 ≡ true → n ≤ 1000
one_page n t h short = ground arith

module _ {Row : Type 0} (id : Row → String) where
  -- The identifier of the last row.
  abbrev pub last_id : String → List Row → String
  last_id start [] = start
  last_id start (row ∷ rows) = last_id (id row) rows

  last_id-append :
      (start : String) (xs ys : List Row) → last_id start (xs ++ ys) ≡ last_id (last_id start xs) ys
  last_id-append start [] ys = refl
  last_id-append start (x ∷ xs) ys = last_id-append (id x) xs ys

  -- The subgraph has the rows: after the last row of some pages, it returns the next page of them.
  abbrev pub Serves : (String → Result ApiError (List Row)) → List Row → Type 0
  Serves page all =
      (before rest : List Row)
      → before ++ rest ≡ all
      → page (last_id "" before) ≡ ok (take sft_page_size rest)

  last_or-same :
      {Acc : Type 0} (step : Acc → List Row → Result ApiError Acc) (no_cursor : ApiError)
      (page : String → Result ApiError (List Row)) (start : String) (rows : List Row)
      → last_or id step no_cursor page start rows ≡ last_id start rows
  last_or-same step no_cursor page start [] = refl
  last_or-same step no_cursor page start (row ∷ rows) =
      last_or-same step no_cursor page (id row) rows

  module _ {Acc : Type 0} (step : Acc → List Row → Result ApiError Acc) (no_cursor : ApiError)
      (page : String → Result ApiError (List Row)) (value : List Row → Acc) (all : List Row)
      (serves : Serves page all)
      (steps : (before rows rest : List Row)
        → before ++ (rows ++ rest) ≡ all
        → step (value before) rows ≡ ok (value (before ++ rows))) where
    go_on-full :
        (later : String → Acc → Option (Result ApiError Acc)) (before rows : List Row) (total : Acc)
        → ltb (length rows) sft_page_size ≡ false
        → go_on id step no_cursor page later rows total ≡ later (last_id "" (before ++ rows)) total
    go_on-full later before [] total h = absurd (ground arith)
    go_on-full later before (row ∷ rows) total h =
        ap (λ i. later i total)
          (last_or-same step no_cursor page (id row) rows
            ∙ sym (last_id-append "" before (row ∷ rows)))

    read_pages-all :
        (fuel : ℕ) (before rest : List Row)
        → before ++ rest ≡ all
        → length rest < fuel * sft_page_size
        → read_pages id step no_cursor page fuel (last_id "" before) (value before)
          ≡ some (ok (value all))
    unfolding read_pages
    read_pages-all zero before rest h enough = absurd (omega arith)
    read_pages-all (suc fuel) before rest h enough =
        let rows = take sft_page_size rest in
        let left = drop sft_page_size rest in
        let whole : rows ++ left ≡ rest = take-drop sft_page_size rest in
        let done : before ++ (rows ++ left) ≡ all = ap (◌++◌ before) whole ∙ h in
        rw (serves before rest h, steps before rows left done)
          (elim (Bool-cases (ltb (length rows) sft_page_size)) [
            | inl short ↦
                let few : length rest ≤ sft_page_size =
                  one_page (length rest) (length rows) (length-take sft_page_size rest) short in
                let same : before ++ rows ≡ all =
                  ap (◌++◌ before) (take_all sft_page_size rest few) ∙ h in
                rw short (ap (λ xs. some (ok (value xs))) same)
            | inr full ↦
                let less : length left < fuel * sft_page_size =
                  few_left (length rest) (length rows) (length left) fuel
                    (length-take sft_page_size rest) (length-drop sft_page_size rest) full enough in
                rw full (
                  go_on-full (read_pages id step no_cursor page fuel) before rows
                    (value (before ++ rows)) full
                  ∙ read_pages-all fuel (before ++ rows) left (append_assoc before rows left ∙ done)
                      less)
          ])

-- The number of rows, and the sum of the amounts that their texts stand for.
count_rows-steps :
    (overflow : ApiError) (all : List SftCountRow)
    → length all < 2 ^ 64
    → (before rows rest : List SftCountRow) → before ++ (rows ++ rest) ≡ all
    → count_rows overflow (length before) rows ≡ ok (length (before ++ rows))
unfolding count_rows
count_rows-steps overflow all small before rows rest h =
    let size : length before + (length rows + length rest) ≡ length all =
      ap (λ n. length before + n) (sym (length-append rows rest))
      ∙ sym (length-append before (rows ++ rest))
      ∙ ap length h in
    let both = length-append before rows in
    let fits : ltb (length before + length rows) (2 ^ 64) ≡ true =
      lt→ltb (length before + length rows) (2 ^ 64) (omega (arith, size, small)) in
    rw fits (ap ok (sym both))

module _ (parse_u256 : String → Option ℕ) where
  abbrev pub amount_of : SftAmountRow → ℕ
  amount_of row = unwrap_or (parse_u256 row.amount) 0

  abbrev pub sum_amounts : List SftAmountRow → ℕ
  sum_amounts [] = 0
  sum_amounts (row ∷ rows) = amount_of row + sum_amounts rows

  abbrev pub IsReadable : SftAmountRow → Type 0
  IsReadable row = parse_u256 row.amount ≡ some (amount_of row)

  sum_amounts-append :
      (xs ys : List SftAmountRow) → sum_amounts (xs ++ ys) ≡ sum_amounts xs + sum_amounts ys
  sum_amounts-append [] ys = omega arith
  sum_amounts-append (x ∷ xs) ys = omega (arith, sum_amounts-append xs ys)

  All-part :
      (before rows rest : List SftAmountRow)
      → All IsReadable (before ++ (rows ++ rest))
      → All IsReadable rows
  All-part [] [] rest h = tt
  All-part [] (row ∷ rows) rest (h, hs) = (h, All-part [] rows rest hs)
  All-part (row ∷ before) rows rest (h, hs) = All-part before rows rest hs

  add_amounts-sum :
      (total : ℕ) (rows : List SftAmountRow)
      → All IsReadable rows
      → total + sum_amounts rows < 2 ^ 256
      → add_amounts parse_u256 total rows ≡ ok (total + sum_amounts rows)
  unfolding add_amounts add_amount parse_u256_decimal
  add_amounts-sum total [] h small = let same : total ≡ total + 0 = omega arith in ap ok same
  add_amounts-sum total (row ∷ rows) (h, hs) small =
      let fits = lt→ltb (total + amount_of row) (2 ^ 256) (omega (arith, small)) in
      let same : total + amount_of row + sum_amounts rows
          ≡ total + (amount_of row + sum_amounts rows) =
        omega arith in
      rw (h, fits)
        (add_amounts-sum (total + amount_of row) rows hs (omega (arith, small)) ∙ ap ok same)

  add_amounts-steps :
      (all : List SftAmountRow)
      → All IsReadable all
      → sum_amounts all < 2 ^ 256
      → (before rows rest : List SftAmountRow) → before ++ (rows ++ rest) ≡ all
      → add_amounts parse_u256 (sum_amounts before) rows ≡ ok (sum_amounts (before ++ rows))
  add_amounts-steps all readable small before rows rest h =
      let part = All-part before rows rest (subst (All IsReadable) (sym h) readable) in
      let size : sum_amounts before + (sum_amounts rows + sum_amounts rest) ≡ sum_amounts all =
        ap (λ n. sum_amounts before + n) (sym (sum_amounts-append rows rest))
        ∙ sym (sum_amounts-append before (rows ++ rest))
        ∙ ap sum_amounts h in
      add_amounts-sum (sum_amounts before) rows part (omega (arith, size, small))
      ∙ ap ok (sym (sum_amounts-append before rows))

count_token_holders-all :
    (page : String → Result ApiError (List SftCountRow)) (all : List SftCountRow) (fuel : ℕ)
    → Serves (λ row. row.id) page all
    → length all < 2 ^ 64
    → length all < fuel * 1000
    → count_token_holders page fuel ≡ some (ok (length all))
unfolding count_token_holders
count_token_holders-all page all fuel serves small enough =
    read_pages-all (λ row. row.id) (count_rows (internal "token holder count overflow"))
      (internal "token holder page missing cursor row") page length all serves
      (count_rows-steps (internal "token holder count overflow") all small) fuel [] all refl enough

count_share_transfers-all :
    (page : String → Result ApiError (List SftCountRow)) (all : List SftCountRow) (fuel : ℕ)
    → Serves (λ row. row.id) page all
    → length all < 2 ^ 64
    → length all < fuel * 1000
    → count_share_transfers page fuel ≡ some (ok (length all))
unfolding count_share_transfers
count_share_transfers-all page all fuel serves small enough =
    read_pages-all (λ row. row.id) (count_rows (internal "share transfer count overflow"))
      (internal "share transfer page missing cursor row") page length all serves
      (count_rows-steps (internal "share transfer count overflow") all small) fuel [] all refl
      enough

sum_deposit_volume-All :
    (parse_u256 : String → Option ℕ) (page : String → Result ApiError (List SftAmountRow))
    (all : List SftAmountRow) (fuel : ℕ)
    → Serves (λ row. row.id) page all
    → All (IsReadable parse_u256) all
    → sum_amounts parse_u256 all < 2 ^ 256
    → length all < fuel * 1000
    → sum_deposit_volume parse_u256 page fuel ≡ some (ok (sum_amounts parse_u256 all))
unfolding sum_deposit_volume
sum_deposit_volume-All parse_u256 page all fuel serves readable small enough =
    read_pages-all (λ row. row.id) (add_amounts parse_u256)
      (internal "deposit page missing cursor row") page (sum_amounts parse_u256) all serves
      (add_amounts-steps parse_u256 all readable small) fuel [] all refl enough

sum_withdraw_volume-All :
    (parse_u256 : String → Option ℕ) (page : String → Result ApiError (List SftAmountRow))
    (all : List SftAmountRow) (fuel : ℕ)
    → Serves (λ row. row.id) page all
    → All (IsReadable parse_u256) all
    → sum_amounts parse_u256 all < 2 ^ 256
    → length all < fuel * 1000
    → sum_withdraw_volume parse_u256 page fuel ≡ some (ok (sum_amounts parse_u256 all))
unfolding sum_withdraw_volume
sum_withdraw_volume-All parse_u256 page all fuel serves readable small enough =
    read_pages-all (λ row. row.id) (add_amounts parse_u256)
      (internal "withdraw page missing cursor row") page (sum_amounts parse_u256) all serves
      (add_amounts-steps parse_u256 all readable small) fuel [] all refl enough

-- If a subgraph serves the holders, transfers, deposits and withdrawals of a token page by page,
-- and their numbers fit into 64 and the sums of their amounts into 256 bits, then with fuel for all
-- pages the aggregate ends with the numbers and the sums of all of them.
pub read_token_details_aggregate_uncached-sums :
    (parse_u256 : String → Option ℕ)
    (earliest : Result ApiError ℕ
      → Result ApiError ℕ
      → Result ApiError ℕ
      → Result ApiError ℕ
      → ApiError)
    (pages : SftPages) (holders transfers : List SftCountRow)
    (deposits withdraws : List SftAmountRow) (fuel : ℕ)
    → Serves (λ row. row.id) pages.holders holders
    → Serves (λ row. row.id) pages.transfers transfers
    → Serves (λ row. row.id) pages.deposits deposits
    → Serves (λ row. row.id) pages.withdraws withdraws
    → (length holders < 2 ^ 64) × (length transfers < 2 ^ 64)
    → All (IsReadable parse_u256) deposits × All (IsReadable parse_u256) withdraws
    → (sum_amounts parse_u256 deposits < 2 ^ 256) × (sum_amounts parse_u256 withdraws < 2 ^ 256)
    → (length holders < fuel * 1000)
      × (length transfers < fuel * 1000)
      × (length deposits < fuel * 1000)
      × (length withdraws < fuel * 1000)
    → read_token_details_aggregate_uncached parse_u256 earliest pages fuel
      ≡ some (
          ok (record {
            holder_count = length holders;
            transfer_count = length transfers;
            deposit_volume = sum_amounts parse_u256 deposits;
            withdraw_volume = sum_amounts parse_u256 withdraws;
          }))
unfolding read_token_details_aggregate_uncached
read_token_details_aggregate_uncached-sums parse_u256 earliest pages holders transfers deposits
      withdraws fuel sh st sd sw (nh, nt) (rd, rw') (ud, uw) (fh, ft, fd, fw) =
    rw
      (
        count_token_holders-all pages.holders holders fuel sh nh fh,
        count_share_transfers-all pages.transfers transfers fuel st nt ft,
        sum_deposit_volume-All parse_u256 pages.deposits deposits fuel sd rd ud fd,
        sum_withdraw_volume-All parse_u256 pages.withdraws withdraws fuel sw rw' uw fw,
      )
      refl
