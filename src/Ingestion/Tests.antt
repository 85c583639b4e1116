-- ===== src/Ingestion/Tests.antt =====
-- Runs and witnesses of ingestion requests.
use radar_asset.Base.{◌≡◌, refl, List, [], ◌∷◌, true, false, count, ok, err, arith}
use radar_asset.Ingestion.{
  Row, other_failure, new_row, conflicted, broken, execute, request_market_ingestion,
}
use radar_asset.Ingestion.Laws.{
  IsWithinLimits, conflicts, request_market_ingestion-IsWithinLimits,
  request_market_ingestion-conflicts,
}

abbrev two_rows : List Row
two_rows = new_row "org" "ada" "btc" "1h" ∷ new_row "org" "ada" "btc" "1d" ∷ []

runs :
    (request_market_ingestion
        (conflicted ∷ [])
        "org"
        "ada"
        "btc"
        "1h"
        (new_row "org" "ada" "btc" "1d" ∷ [])
      ≡ ok (two_rows, (new_row "org" "ada" "btc" "1h", true)))
    × (request_market_ingestion [] "org" "ada" "btc" "1h" two_rows
        ≡ ok (two_rows, (new_row "org" "ada" "btc" "1h", false)))
    × (request_market_ingestion (conflicted ∷ broken ∷ []) "org" "ada" "btc" "1h" []
        ≡ err other_failure)
unfolding request_market_ingestion
runs = (refl, refl, refl)

none-IsWithinLimits : IsWithinLimits []
unfolding count
none-IsWithinLimits = record {
  user_limit = λ o u. omega arith;
  organization_limit = λ o. omega arith;
  single = λ o u i f. omega arith;
}

one_row-IsWithinLimits : IsWithinLimits (new_row "org" "ada" "btc" "1d" ∷ [])
unfolding execute request_market_ingestion
one_row-IsWithinLimits =
    request_market_ingestion-IsWithinLimits [] "org" "ada" "btc" "1d" [] none-IsWithinLimits refl

request_market_ingestion-IsWithinLimits_example : IsWithinLimits two_rows
request_market_ingestion-IsWithinLimits_example =
    request_market_ingestion-IsWithinLimits (conflicted ∷ []) "org" "ada" "btc" "1h"
      (new_row "org" "ada" "btc" "1d" ∷ []) one_row-IsWithinLimits runs.0

request_market_ingestion-conflicts_example :
    request_market_ingestion (conflicts 3) "org" "ada" "btc" "1h" two_rows
    ≡ execute "org" "ada" "btc" "1h" two_rows
request_market_ingestion-conflicts_example =
    request_market_ingestion-conflicts 3 "org" "ada" "btc" "1h" two_rows
