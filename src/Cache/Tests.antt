-- ===== src/Cache/Tests.antt =====
-- Runs of the cache on numbers.
use multi_academy_backend.Prelude.{ℕ, String, ◌≡◌, refl, false, none, some, [], arith, eq_iff}
use multi_academy_backend.Prelude.Dict.{lookup}
use multi_academy_backend.Cache.{
  CacheEntry, CacheState, Load, hit, get_or_load, finish_load, invalidate, invalidate_tenant, clear,
}
use multi_academy_backend.Cache.Capacity.{IsBounded, Reached, Reached-IsBounded}
use multi_academy_backend.Cache.Generations.{
  During, invalidated_load_not_stored, cleared_load_stored,
}

abbrev empty : CacheState ℕ
empty = record { entries = []; in_flight = []; generations = []; default_ttl_ms = 45000 }

abbrev key : String
key = "tenant:t1:users"

abbrev load : Load
load = record { key = key; request = 1; generation = 0; ttl_ms = 45000 }

abbrev started : CacheState ℕ
started = (get_or_load empty key false none 1 10).0

load_run : (get_or_load (finish_load started load (some 7) 20) key false none 2 30).1 ≡ hit 7
unfolding get_or_load finish_load
load_run = refl

invalidate_run : (finish_load (invalidate_tenant started "t1") load (some 7) 20).entries ≡ []
unfolding get_or_load finish_load invalidate_tenant
invalidate_run = refl

Reached-IsBounded_example : IsBounded (finish_load started load (some 7) 20)
Reached-IsBounded_example =
    Reached-IsBounded {start = empty} (record { within = omega arith; named = refl })
      (Reached.loaded load (some 7) 20 (ground (arith, eq_iff key ""))
        (Reached.asked key false none 1 10 (ground (arith, eq_iff key "")) Reached.here))

invalidated_load_not_stored_example :
    (finish_load (invalidate started "tenant:t1:") load (some 7) 20).entries
    ≡ (invalidate started "tenant:t1:").entries
unfolding get_or_load
invalidated_load_not_stored_example =
    invalidated_load_not_stored empty started (invalidate started "tenant:t1:") key "tenant:t1:"
      false none 1 10 load (some 7) 20 refl During.here refl During.here

cleared_load_stored_example :
    (e : CacheEntry ℕ) × (lookup key (finish_load (clear started) load (some 7) 20).entries
      ≡ some e)
    × (e.value ≡ 7)
cleared_load_stored_example = cleared_load_stored started load 7 20 refl
