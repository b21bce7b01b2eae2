-- ===== src/Routes/Resolution.antt =====
-- `resolve` of src/rust/src/rate_limit_routes.rs against the rules that no other rule outranks.
use ores_middleware.Prelude.{◌≡◌, ap}
use ores_middleware.Ranking.Winners.{winners_of, scan_by-winners_of}
use ores_middleware.Routes.{
  RouteRateLimitTable, RouteRateLimitRequest, score_of, scan, decide_matches, resolve,
}

-- `resolve` decides by the rules that match and that no other rule of the table outranks, in the order of
-- the table.
pub resolve-winners_of :
    (request : RouteRateLimitRequest) (table : RouteRateLimitTable)
    → resolve table request
      ≡ decide_matches table.default_policy request
          (winners_of (score_of request) table.routes table.routes)
unfolding resolve scan
resolve-winners_of request table =
    ap (decide_matches table.default_policy request)
      (scan_by-winners_of (score_of request) table.routes)
