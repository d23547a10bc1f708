-- ===== src/Trades/ByHash.antt =====
-- The trades of several orders are listed as their trades in one list would be.
use st0x_rest_api.Prelude.{
  ℕ, ◌≡◌, refl, inl, inr, List, [], ◌∷◌, ◌++◌, Result, ok, ◌>>=◌, Result-cases, map_ok, traverse,
}
use st0x_rest_api.ApiError.{ApiError}
use st0x_rest_api.Floats.{FloatOps}
use st0x_rest_api.Denomination.{Denomination}
use st0x_rest_api.Trades.{
  RaindexTrade, RaindexTradesListResult, TradesOfOrder, RaindexTradesByOrderHashResult,
  TradesDataSource, TradeWrapRatioMap, current_wrap_ratios_for_trades,
}
use st0x_rest_api.Trades.Listing.{
  TradeByAddress, TradesByOrderHashEntry, map_trade_for_list, trades_of_all,
  build_trades_list_response, order_hash_entry, build_trades_by_order_hashes_response,
}

module _ {A B : Type 0} (f : A → Result ApiError B) where
  traverse-append :
      (xs ys : List A)
      → traverse f (xs ++ ys) ≡ (traverse f xs >>= λ as'. traverse f ys >>= λ bs. ok (as' ++ bs))
  traverse-append [] ys = elim (Result-cases (traverse f ys)) [
    | inl (bs, e) ↦ rw e refl
    | inr (e, h) ↦ rw h refl
  ]
  traverse-append (x ∷ xs) ys = elim (Result-cases (f x)) [
    | inr (e, h) ↦ rw h refl
    | inl (y, h) ↦
        rw (h, traverse-append xs ys)
          (elim (Result-cases (traverse f xs)) [
            | inr (e, k) ↦ rw k refl
            | inl (as', k) ↦ rw k (elim (Result-cases (traverse f ys)) [
              | inr (e, l) ↦ rw l refl
              | inl (bs, l) ↦ rw l refl
            ])
          ])
  ]

-- The trades of the entries, one entry after another.
abbrev pub listed_of_all : List TradesByOrderHashEntry → List TradeByAddress
listed_of_all [] = []
listed_of_all (entry ∷ entries) = entry.trades ++ listed_of_all entries

module _ (ops : FloatOps) (d : Denomination) (m : TradeWrapRatioMap) where
  entries-listed :
      (entries : List TradesOfOrder)
      → map_ok listed_of_all (traverse (order_hash_entry ops d m) entries)
        ≡ traverse (λ trade. map_trade_for_list ops trade d m) (trades_of_all entries)
  unfolding order_hash_entry
  entries-listed [] = refl
  entries-listed (entry ∷ entries) =
      let list =
        λ (ts : List RaindexTrade). traverse (λ trade. map_trade_for_list ops trade d m) ts in
      rw
        (
          traverse-append (λ trade. map_trade_for_list ops trade d m) entry.trades
              (trades_of_all entries),
          order_hash_entry,
          ← entries-listed entries,
        )
        (elim (Result-cases (list entry.trades)) [
          | inr (e, h) ↦ rw h refl
          | inl (ts, h) ↦ rw h (elim (Result-cases (traverse (order_hash_entry ops d m) entries)) [
            | inr (e, k) ↦ rw k refl
            | inl (es, k) ↦ rw k refl
          ])
        ])

-- A request for the trades of several orders has the trades of one list of all of them, entry after
-- entry, or the same error.
pub build_trades_by_order_hashes_response-eq-list :
    (ops : FloatOps) (ds : TradesDataSource) (result : RaindexTradesByOrderHashResult)
    (all : RaindexTradesListResult) (page page_size : ℕ) (d : Denomination)
    → all.trades ≡ trades_of_all result.trades_by_order_hash
    → map_ok
        (λ r. listed_of_all r.trades_by_order_hash)
        (build_trades_by_order_hashes_response ops ds result d)
      ≡ map_ok (λ r. r.trades) (build_trades_list_response ops ds all page page_size d)
unfolding build_trades_by_order_hashes_response build_trades_list_response
build_trades_by_order_hashes_response-eq-list ops ds result all page page_size d same =
    rw same
      (elim (Result-cases
        (current_wrap_ratios_for_trades ds d (trades_of_all result.trades_by_order_hash))) [
          | inr (e, h) ↦ rw h refl
          | inl (m, h) ↦
              rw (h, ← entries-listed ops d m result.trades_by_order_hash)
                (elim (Result-cases
                  (traverse (order_hash_entry ops d m) result.trades_by_order_hash)) [
                    | inr (e, k) ↦ rw k refl
                    | inl (es, k) ↦ rw k refl
                  ])
        ])
