-- ===== src/RequestCache/Tests.antt =====
-- Runs and witnesses of the request cache.
use radar_asset.Base.{◌≡◌, refl, inl, some, List, [], ◌∷◌, arith}
use radar_asset.Base.Assoc.{get}
use radar_asset.Base.Words.{word_eq, begins_with}
use radar_asset.RequestCache.{
  empty_cache, default_ttl_ms, cached_request, CacheEvent, requested, rejected, cleared_all, happen,
  happen_all,
}
use radar_asset.RequestCache.Laws.{cached_request-shared, rejected-retries}

abbrev others : List CacheEvent
others =
    requested "assets" default_ttl_ms 20_000
    ∷ rejected "assets"
    ∷ requested "runs/1" default_ttl_ms 25_000
    ∷ cleared_all (some "assets")
    ∷ []

-- The load that began at 0 is rejected at last, and takes away the entry of the second load, which
-- began at 40,000 and has not expired: the third request at 41,000 calls the loader again.
abbrev slow_failure : List CacheEvent
slow_failure = requested "runs" default_ttl_ms 0 ∷ requested "runs" default_ttl_ms 40_000 ∷ []

runs :
    ((cached_request "runs" default_ttl_ms 41_000 (happen_all slow_failure empty_cache)).0 ≡ 1)
    × ((cached_request "runs" default_ttl_ms 41_000
          (happen (rejected "runs") (happen_all slow_failure empty_cache))).0
        ≡ 2)
unfolding cached_request happen_all
runs = (refl, refl)

cached_request-shared_example :
    cached_request "runs" default_ttl_ms 29_999
      (happen_all others (cached_request "runs" default_ttl_ms 0 empty_cache).1)
    ≡ (0, happen_all others (cached_request "runs" default_ttl_ms 0 empty_cache).1)
unfolding cached_request begins_with get word_eq
cached_request-shared_example =
    cached_request-shared "runs" default_ttl_ms 0 empty_cache others default_ttl_ms 29_999 refl
      (inl refl, (refl, (inl refl, ((refl, refl), tt)))) (omega arith)

rejected-retries_example :
    ((cached_request "runs" default_ttl_ms 41_000
        (happen (rejected "runs") (happen_all slow_failure empty_cache))).0
      ≡ 2)
    × ((cached_request "runs" default_ttl_ms 41_000
          (happen (rejected "runs") (happen_all slow_failure empty_cache))).1.loads
        ≡ 3)
unfolding happen_all
rejected-retries_example = rejected-retries slow_failure "runs" default_ttl_ms 41_000
