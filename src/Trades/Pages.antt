-- ===== src/Trades/Pages.antt =====
-- The page numbers of the lists of trades.
use st0x_rest_api.Prelude.{◌^◌, ◌<◌, ◌≡◌, ◌↔◌, unwrap_or, ok, arith}
use st0x_rest_api.Trades.{TradesPaginationParams, PageParams, trades_pagination_params}

-- The parameters that a request stands for.
abbrev pub requested_page : TradesPaginationParams → PageParams
requested_page params = record {
  page = unwrap_or params.page 1;
  page_size = unwrap_or params.page_size 20;
  sdk_page = unwrap_or params.page 1;
  sdk_page_size = unwrap_or params.page_size 20;
  time_filter = record { start = params.start_time; end = params.end_time };
}

-- A request is accepted exactly if its page and its page size, 1 and 20 unless they are given, fit
-- into 16 bits, and the client is then asked for that page, that size and those times.
pub trades_pagination_params_iff :
    (params : TradesPaginationParams) (p : PageParams)
    → (trades_pagination_params params ≡ ok p) ↔ (
        (unwrap_or params.page 1 < 2 ^ 16)
        × (unwrap_or params.page_size 20 < 2 ^ 16)
        × (requested_page params ≡ p))
unfolding trades_pagination_params
trades_pagination_params_iff params p = ground arith
