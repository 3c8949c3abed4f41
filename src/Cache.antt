-- ===== src/Cache.antt =====
-- The cache of list answers (`ListCacheService` of web-server/src/common/cache/list-cache.service.ts).
-- A load is two events: `getOrLoad` up to the call of the loader, and the loader's end. A value is
-- any type; the code clones values on their way in and out, so that callers share none.
pub mod Capacity
pub mod Generations
mod Tests
use Prim.Native.Nat.{max}
use text.Mathlib.Text.{starts_with}
use multi_academy_backend.Prelude.{
  ℕ, zero, suc, ◌+◌, String, Bool, true, false, not, ◌&&◌, Option, none, some, List, [], ◌∷◌, ◌==◌,
  eqb, ltb, if◌then◌else◌, length,
}
use multi_academy_backend.Prelude.Dict.{Dict, lookup, lookup_or, has, insert, remove, remove_keys}
use Prim.Native.String

abbrev pub max_entries : ℕ
max_entries = 5000

pub record CacheEntry (A : Type 0) : Type 0 where
  pub value : A
  pub touched_at : ℕ
  pub expires_at : ℕ

pub record CacheState (A : Type 0) : Type 0 where
  pub entries : Dict (CacheEntry A)
  -- The request that loads a key.
  pub in_flight : Dict ℕ
  pub generations : Dict ℕ
  pub default_ttl_ms : ℕ

-- A running load, with what its closure remembers.
pub record Load : Type 0 where
  pub key : String
  pub request : ℕ
  pub generation : ℕ
  pub ttl_ms : ℕ

-- What `getOrLoad` gives its caller: a value, the promise of a running load, or a load of its own.
pub data Answer (A : Type 0) : Type 0 where
  hit : A → Answer A
  joined : ℕ → Answer A
  loading : Load → Answer A

-- The generations, raised at each key in flight with the prefix.
abbrev pub raise : String → Dict ℕ → Dict ℕ → Dict ℕ
raise prefix [] generations = generations
raise prefix ((key, request) ∷ running) generations =
    if starts_with key prefix
    then raise prefix running (insert key (lookup_or 0 key generations + 1) generations)
    else raise prefix running generations

module _ {A : Type 0} where
  -- The loop of `set`: the first entry with the least time of use.
  abbrev pub oldest_from : Option (String × ℕ) → Dict (CacheEntry A) → Option String
  oldest_from none [] = none
  oldest_from (some (key, at)) [] = some key
  oldest_from none ((key, e) ∷ d) = oldest_from (some (key, e.touched_at)) d
  oldest_from (some (key, at)) ((key', e) ∷ d) =
      oldest_from (if ltb e.touched_at at then some (key', e.touched_at) else some (key, at)) d

  abbrev pub drop_key : Option String → Dict (CacheEntry A) → Dict (CacheEntry A)
  drop_key none d = d
  drop_key (some key) d = if key == "" then d else remove key d

  -- The entries after `set` has made room.
  abbrev pub make_room : String → Dict (CacheEntry A) → Dict (CacheEntry A)
  make_room key d =
      if not (ltb (length d) max_entries) && not (has key d)
      then drop_key (oldest_from none d) d
      else d

  unfoldable pub set : CacheState A → String → A → ℕ → ℕ → CacheState A
  set s key value ttl_ms now = record s {
    entries =
        insert key (record { value = value; touched_at = now; expires_at = now + max 1000 ttl_ms })
          (make_room key s.entries);
  }

  -- `typeof ttlMs === 'number' && ttlMs > 0 ? ttlMs : this.defaultTtlMs`.
  abbrev pub ttl_or_default : CacheState A → Option ℕ → ℕ
  ttl_or_default s none = s.default_ttl_ms
  ttl_or_default s (some zero) = s.default_ttl_ms
  ttl_or_default s (some (suc n)) = suc n

  -- The part of `getOrLoad` behind the look into the cache.
  abbrev pub begin_load : CacheState A → String → Option ℕ → ℕ → CacheState A × Answer A
  begin_load s key ttl_ms request = elim (lookup key s.in_flight) [
    | some pending ↦ (s, joined pending)
    | none ↦ (
      record s { in_flight = insert key request s.in_flight },
      loading (record {
        key = key;
        request = request;
        generation = lookup_or 0 key s.generations;
        ttl_ms = ttl_or_default s ttl_ms;
      }),
    )
  ]

  abbrev pub touch : CacheEntry A → ℕ → CacheEntry A
  touch e now = record e { touched_at = now }

  abbrev pub look_up :
      CacheState A → String → Option ℕ → ℕ → ℕ → Option (CacheEntry A) → CacheState A × Answer A
  look_up s key ttl_ms request now none = begin_load s key ttl_ms request
  look_up s key ttl_ms request now (some e) =
      if ltb now e.expires_at
      then (record s { entries = insert key (touch e now) s.entries }, hit e.value)
      else begin_load (record s { entries = remove key s.entries }) key ttl_ms request

  -- `getOrLoad`, up to the call of the loader.
  unfoldable pub get_or_load :
      CacheState A → String → Bool → Option ℕ → ℕ → ℕ → CacheState A × Answer A
  get_or_load s key force ttl_ms request now =
      if force
      then begin_load s key ttl_ms request
      else look_up s key ttl_ms request now (lookup key s.entries)

  -- The `finally`: only the load's own slot is cleared.
  abbrev pub clear_slot : CacheState A → Load → CacheState A
  clear_slot s l = elim (lookup l.key s.in_flight) [
    | none ↦ s
    | some running ↦
        if eqb running l.request then record s { in_flight = remove l.key s.in_flight } else s
  ]

  -- The end of a load, with the loader's value, none where it threw.
  unfoldable pub finish_load : CacheState A → Load → Option A → ℕ → CacheState A
  unfolding set
  finish_load s l none now = clear_slot s l
  finish_load s l (some value) now =
      if eqb (lookup_or 0 l.key s.generations) l.generation
      then clear_slot (set s l.key value l.ttl_ms now) l
      else clear_slot s l

  unfoldable pub invalidate : CacheState A → String → CacheState A
  invalidate s prefix = record s {
    entries = remove_keys (λ key. starts_with key prefix) s.entries;
    in_flight = remove_keys (λ key. starts_with key prefix) s.in_flight;
    generations = raise prefix s.in_flight s.generations;
  }

  unfoldable pub invalidate_tenant : CacheState A → String → CacheState A
  unfolding invalidate
  invalidate_tenant s tenant_id = invalidate s (String.◌++◌ "tenant:" (String.◌++◌ tenant_id ":"))

  unfoldable pub clear : CacheState A → CacheState A
  clear s = record s { entries = []; in_flight = []; generations = [] }
