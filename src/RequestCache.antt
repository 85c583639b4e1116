-- ===== src/RequestCache.antt =====
-- src/lib/client/request-cache.ts: the cache of requests in the browser. A promise is the number of the
-- loader call that made it; the clock and the moments at which a load is rejected come with the events.
pub mod Laws
mod Tests
use Prim.Native.String.{String, [], ◌∷◌}
use text.Mathlib.Text.{◌==◌}
use Prim.Native.Char.{code}
use radar_asset.Base.{
  ℕ, suc, ◌+◌, Bool, true, false, ◌&&◌, Option, none, some, List, [], ◌∷◌, if◌then◌else◌, ltb,
}
use radar_asset.Base.Words.{codes, begins_with}
use radar_asset.Base.Assoc.{Dict, get, put, remove}

pub record CacheEntry : Type 0 where
  pub expires_at : ℕ
  pub promise : ℕ

abbrev pub default_ttl_ms : ℕ
default_ttl_ms = 30_000

-- The module's map, and how often a loader has been called.
pub record Cache : Type 0 where
  pub entries : Dict CacheEntry
  pub loads : ℕ

abbrev pub empty_cache : Cache
empty_cache = record { entries = []; loads = 0 }

unfoldable pub drop_prefix : String → Dict CacheEntry → Dict CacheEntry
unfolding begins_with
drop_prefix prefix [] = []
drop_prefix prefix ((key, e) ∷ m) =
    let rest = drop_prefix prefix m in
    if begins_with (codes key) (codes prefix) then rest else (key, e) ∷ rest

unfoldable pub clear_cached_request : String → Cache → Cache
unfolding remove
clear_cached_request key c = record c { entries = remove key c.entries }

unfoldable pub clear_cached_requests : Option String → Cache → Cache
unfolding drop_prefix
clear_cached_requests none c = record c { entries = [] }
clear_cached_requests (some prefix) c = record c {
  entries = if prefix == "" then [] else drop_prefix prefix c.entries;
}

abbrev pub fresh : Option CacheEntry → ℕ → Option ℕ
fresh none now = none
fresh (some e) now = if ltb now e.expires_at then some e.promise else none

abbrev pub load : String → ℕ → Cache → ℕ × Cache
load key expires_at c = (
  c.loads,
  record {
    entries = put key (record { expires_at = expires_at; promise = c.loads }) c.entries;
    loads = suc c.loads;
  },
)

abbrev pub serve : String → ℕ → Cache → Option ℕ → ℕ × Cache
serve key expires_at c (some promise) = (promise, c)
serve key expires_at c none = load key expires_at c

-- The promise returned, and the cache after the call.
unfoldable pub cached_request : String → ℕ → ℕ → Cache → ℕ × Cache
unfolding get put
cached_request key ttl_ms now c = serve key (now + ttl_ms) c (fresh (get key c.entries) now)

-- What happens to the cache: a call of one of its functions, or the rejection of a load of a key.
pub data CacheEvent : Type 0 where
  requested : String → ℕ → ℕ → CacheEvent
  rejected : String → CacheEvent
  cleared : String → CacheEvent
  cleared_all : Option String → CacheEvent

unfoldable pub happen : CacheEvent → Cache → Cache
unfolding cached_request clear_cached_request clear_cached_requests
happen (requested key ttl_ms now) c = (cached_request key ttl_ms now c).1
happen (rejected key) c = clear_cached_request key c
happen (cleared key) c = clear_cached_request key c
happen (cleared_all prefix) c = clear_cached_requests prefix c

unfoldable pub happen_all : List CacheEvent → Cache → Cache
unfolding happen
happen_all [] c = c
happen_all (e ∷ es) c = happen_all es (happen e c)
