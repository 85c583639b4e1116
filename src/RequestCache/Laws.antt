-- ===== src/RequestCache/Laws.antt =====
-- What the cache promises: requests that share a load, and a new load after a rejection.
use Prim.Native.String.{String}
use text.Mathlib.Text.{◌==◌}
use text.Mathlib.TextEquality.{eq_iff}
use text.Mathlib.TextPositions.{eq_refl}
use radar_asset.Base.{
  ℕ, suc, ◌+◌, ◌<◌, ◌≡◌, refl, sym, ap, subst, ◌∙◌, ◌⊎◌, inl, inr, Bool, true, false, none, some,
  List, [], ◌∷◌, Bool-cases, Option-cases, All, arith,
}
use radar_asset.Base.Words.{codes, begins_with}
use radar_asset.Base.Assoc.{
  Dict, get, remove, HasDistinctKeys, get-put, get-remove, put-HasDistinctKeys,
  remove-HasDistinctKeys,
}
use radar_asset.RequestCache.{
  CacheEntry, Cache, empty_cache, drop_prefix, clear_cached_request, clear_cached_requests, fresh,
  load, serve, cached_request, CacheEvent, requested, rejected, cleared, cleared_all, happen,
  happen_all,
}

-- An event that leaves a key alone whose entry expires at a given time.
abbrev pub Spares : String → ℕ → CacheEvent → Type 0
Spares key expires_at (requested k ttl_ms now) = ((k == key) ≡ false) ⊎ (now < expires_at)
Spares key expires_at (rejected k) = (k == key) ≡ false
Spares key expires_at (cleared k) = (k == key) ≡ false
Spares key expires_at (cleared_all none) = ◌≡◌ {A = Bool} true false
Spares key expires_at (cleared_all (some prefix)) =
    ((prefix == "") ≡ false) × (begins_with (codes key) (codes prefix) ≡ false)

get-remove_other :
    (k key : String) (m : Dict CacheEntry) → (k == key) ≡ false → get key (remove k m) ≡ get key m
unfolding get remove
get-remove_other k key [] h = refl
get-remove_other k key ((j, v) ∷ m) h =
    ground (arith, eq_iff j k, eq_iff j key, eq_iff k key, get-remove_other k key m h)

get-drop_prefix :
    (prefix key : String) (m : Dict CacheEntry)
    → begins_with (codes key) (codes prefix) ≡ false
    → get key (drop_prefix prefix m) ≡ get key m
unfolding get drop_prefix
get-drop_prefix prefix key [] h = refl
get-drop_prefix prefix key ((j, v) ∷ m) h = elim (Bool-cases (j == key)) [
  | inl same ↦ rw ((eq_iff j key).0 same, h, eq_refl key) refl
  | inr apart ↦ elim (Bool-cases (begins_with (codes j) (codes prefix))) [
    | inl e ↦ rw (e, apart) (get-drop_prefix prefix key m h)
    | inr e ↦ rw (e, apart) (get-drop_prefix prefix key m h)
  ]
]

fresh_entry :
    (key : String) (now : ℕ) (c : Cache) {e : CacheEntry}
    → get key c.entries ≡ some e
    → now < e.expires_at
    → fresh (get key c.entries) now ≡ some e.promise
fresh_entry key now c h k = rw h (ground arith)

cached_request_hit :
    (key : String) (ttl_ms now : ℕ) (c : Cache) {e : CacheEntry}
    → get key c.entries ≡ some e
    → now < e.expires_at
    → cached_request key ttl_ms now c ≡ (e.promise, c)
unfolding cached_request
cached_request_hit key ttl_ms now c h k =
    ap (serve key (now + ttl_ms) c) (fresh_entry key now c h k)

cached_request-load :
    (key : String) (ttl_ms now : ℕ) (c : Cache)
    → fresh (get key c.entries) now ≡ none
    → cached_request key ttl_ms now c ≡ load key (now + ttl_ms) c
unfolding cached_request
cached_request-load key ttl_ms now c stale = ap (serve key (now + ttl_ms) c) stale

requested_other :
    (k key : String) (ttl_ms now : ℕ) (c : Cache)
    → (k == key) ≡ false
    → get key (cached_request k ttl_ms now c).1.entries ≡ get key c.entries
unfolding cached_request
requested_other k key ttl_ms now c h = elim (Option-cases (fresh (get k c.entries) now)) [
  | inl stale ↦
      ap (λ r. get key (serve k (now + ttl_ms) c r).1.entries) stale
      ∙ (get-put k key (record { expires_at = now + ttl_ms; promise = c.loads }) c.entries
          ∙ rw h refl)
  | inr (promise, hit) ↦ ap (λ r. get key (serve k (now + ttl_ms) c r).1.entries) hit
]

happen-get :
    (event : CacheEvent) (key : String) (c : Cache) {e : CacheEntry}
    → get key c.entries ≡ some e
    → Spares key e.expires_at event
    → get key (happen event c).entries ≡ some e
unfolding happen clear_cached_request clear_cached_requests
happen-get (requested k ttl_ms now) key c {e} h spares = elim (Bool-cases (k == key)) [
  | inr apart ↦ requested_other k key ttl_ms now c apart ∙ h
  | inl same ↦ elim spares [
    | inl apart ↦ cc (rw same at apart)
    | inr early ↦
        ap (λ (r : ℕ × Cache). get key r.1.entries)
          (cached_request_hit k ttl_ms now c {e = e}
            (ap (λ j. get j c.entries) ((eq_iff k key).0 same) ∙ h) early)
        ∙ h
  ]
]
happen-get (rejected k) key c h spares = get-remove_other k key c.entries spares ∙ h
happen-get (cleared k) key c h spares = get-remove_other k key c.entries spares ∙ h
happen-get (cleared_all none) key c h spares = cc
happen-get (cleared_all (some prefix)) key c h (whole, apart) =
    rw whole (get-drop_prefix prefix key c.entries apart ∙ h)

happen_all-get :
    (events : List CacheEvent) (key : String) (c : Cache) {e : CacheEntry}
    → get key c.entries ≡ some e
    → All (Spares key e.expires_at) events
    → get key (happen_all events c).entries ≡ some e
unfolding happen_all
happen_all-get [] key c h tt = h
happen_all-get (event ∷ events) key c h (s, ss) =
    happen_all-get events key (happen event c) (happen-get event key c h s) ss

cached_request-entry :
    (key : String) (ttl_ms now : ℕ) (c : Cache)
    → fresh (get key c.entries) now ≡ none
    → (cached_request key ttl_ms now c).0 ≡ c.loads
      × ((cached_request key ttl_ms now c).1.loads ≡ suc c.loads)
      × (get key (cached_request key ttl_ms now c).1.entries
          ≡ some (record { expires_at = now + ttl_ms; promise = c.loads }))
cached_request-entry key ttl_ms now c stale = rw (cached_request-load key ttl_ms now c stale) (
  refl,
  refl,
  get-put key key (record { expires_at = now + ttl_ms; promise = c.loads }) c.entries
      ∙ rw (eq_refl key) refl,
)

-- A request that has called the loader is shared: until its entry expires, whatever happens in between,
-- short of a rejection or a clearing that concerns the key, a request of the key returns the same
-- promise and calls no loader.
pub cached_request-shared :
    (key : String) (ttl_ms now : ℕ) (c : Cache) (events : List CacheEvent) (later_ttl later : ℕ)
    → fresh (get key c.entries) now ≡ none
    → All (Spares key (now + ttl_ms)) events
    → later < now + ttl_ms
    → cached_request key later_ttl later (happen_all events (cached_request key ttl_ms now c).1)
      ≡ ((cached_request key ttl_ms now c).0, happen_all events (cached_request key ttl_ms now c).1)
cached_request-shared key ttl_ms now c events later_ttl later stale spared early =
    let (first, loads, entry) = cached_request-entry key ttl_ms now c stale in
    rw first (
      cached_request_hit key later_ttl later _
        (happen_all-get events key (cached_request key ttl_ms now c).1 entry spared) early)

drop_prefix-HasDistinctKeys :
    (prefix : String) (m : Dict CacheEntry)
    → HasDistinctKeys m
    → HasDistinctKeys (drop_prefix prefix m)
unfolding drop_prefix
drop_prefix-HasDistinctKeys prefix [] h = tt
drop_prefix-HasDistinctKeys prefix ((j, v) ∷ m) (n, h) =
    elim (Bool-cases (begins_with (codes j) (codes prefix))) [
      | inl e ↦ rw e (drop_prefix-HasDistinctKeys prefix m h)
      | inr e ↦ rw e (absent m n, drop_prefix-HasDistinctKeys prefix m h)
    ]
  where
    absent :
        (l : Dict CacheEntry)
        → All (λ x. (x.0 == j) ≡ false) l
        → All (λ x. (x.0 == j) ≡ false) (drop_prefix prefix l)
    absent [] a = tt
    absent ((i, w) ∷ l) (a, as') = elim (Bool-cases (begins_with (codes i) (codes prefix))) [
      | inl e ↦ rw e (absent l as')
      | inr e ↦ rw e (a, absent l as')
    ]

happen-HasDistinctKeys :
    (event : CacheEvent) (c : Cache)
    → HasDistinctKeys c.entries
    → HasDistinctKeys (happen event c).entries
unfolding happen cached_request clear_cached_request clear_cached_requests
happen-HasDistinctKeys (requested k ttl_ms now) c h =
    elim (Option-cases (fresh (get k c.entries) now)) [
      | inl stale ↦
          subst (λ r. HasDistinctKeys (serve k (now + ttl_ms) c r).1.entries) (sym stale)
            (put-HasDistinctKeys k (record { expires_at = now + ttl_ms; promise = c.loads })
              c.entries h)
      | inr (promise, hit) ↦
          subst (λ r. HasDistinctKeys (serve k (now + ttl_ms) c r).1.entries) (sym hit) h
    ]
happen-HasDistinctKeys (rejected k) c h = remove-HasDistinctKeys k c.entries h
happen-HasDistinctKeys (cleared k) c h = remove-HasDistinctKeys k c.entries h
happen-HasDistinctKeys (cleared_all none) c h = tt
happen-HasDistinctKeys (cleared_all (some prefix)) c h = elim (Bool-cases (prefix == "")) [
  | inl e ↦ rw e tt
  | inr e ↦ rw e (drop_prefix-HasDistinctKeys prefix c.entries h)
]

happen_all-HasDistinctKeys :
    (events : List CacheEvent) (c : Cache)
    → HasDistinctKeys c.entries
    → HasDistinctKeys (happen_all events c).entries
unfolding happen_all
happen_all-HasDistinctKeys [] c h = h
happen_all-HasDistinctKeys (event ∷ events) c h =
    happen_all-HasDistinctKeys events (happen event c) (happen-HasDistinctKeys event c h)

-- Of any cache that has come about from the empty one: after a load of a key has been rejected, the
-- next request of the key calls the loader, whichever load the entry of the key belonged to.
pub rejected-retries :
    (events : List CacheEvent) (key : String) (ttl_ms now : ℕ)
    → let c = happen_all events empty_cache in
      (cached_request key ttl_ms now (happen (rejected key) c)).0 ≡ c.loads
      × ((cached_request key ttl_ms now (happen (rejected key) c)).1.loads ≡ suc c.loads)
unfolding happen clear_cached_request
rejected-retries events key ttl_ms now =
    let c = happen_all events empty_cache in
    let (promise, loads, entry) = cached_request-entry key ttl_ms now (clear_cached_request key c) (
      rw
        (
          get-remove key key c.entries (happen_all-HasDistinctKeys events empty_cache tt),
          eq_refl key,
        )
        refl) in
    (promise, loads)
