-- ===== src/Cache/Capacity.antt =====
-- The number of entries of the cache
-- (web-server/src/common/cache/list-cache.service.ts).
use multi_academy_backend.Prelude.{
  ℕ, ◌≤◌, ◌<◌, String, ◌≡◌, ◌≢◌, ◌⊎◌, inl, inr, refl, Bool, true, false, not, ◌&&◌, Option, none,
  some, [], ◌∷◌, arith, length, ltb, eqb, ◌==◌, eq_iff, Bool-cases, Option-cases,
}
use text.Mathlib.Text.{starts_with}
use multi_academy_backend.Prelude.Dict.{
  Dict, lookup, lookup_or, has, insert, remove, lookup-insert, lookup-remove, lookup-remove_keys,
  length-insert, length-remove_lt, length-remove-le, length-remove_keys-le,
}
use multi_academy_backend.Cache.{
  CacheEntry, CacheState, Load, max_entries, oldest_from, make_room, set, touch, get_or_load,
  clear_slot, finish_load, invalidate, clear,
}

module _ {A : Type 0} where
  -- The number of entries is bounded, and no entry has the empty key, which `set` would not evict.
  pub record IsBounded (s : CacheState A) : Type 0 where
    pub within : length s.entries ≤ max_entries
    pub named : has "" s.entries ≡ false

  oldest_from-has :
      (key : String) (at : ℕ) (d : Dict (CacheEntry A))
      → (found : String) × (oldest_from (some (key, at)) d ≡ some found)
        × ((found ≡ key) ⊎ (has found d ≡ true))
  oldest_from-has key at [] = (key, refl, inl refl)
  oldest_from-has key at ((key', e) ∷ d) = elim (Bool-cases (ltb e.touched_at at)) [
    | inl older ↦
        let (found, is, where_found) = oldest_from-has key' e.touched_at d in
        (found, rw (older, oldest_from) is, ground (arith, eq_iff key' found))
    | inr newer ↦
        let (found, is, where_found) = oldest_from-has key at d in
        (found, rw (newer, oldest_from) is, ground (arith, eq_iff key' found))
  ]

  oldest-has :
      (d : Dict (CacheEntry A))
      → 0 < length d
      → (found : String) × (oldest_from none d ≡ some found) × (has found d ≡ true)
  oldest-has [] h = absurd (omega arith)
  oldest-has ((key, e) ∷ d) h =
      let (found, is, where_found) = oldest_from-has key e.touched_at d in
      (found, is, ground (arith, eq_iff key found))

  has-named :
      (key : String) (d : Dict (CacheEntry A))
      → has "" d ≡ false
      → has key d ≡ true
      → (key == "") ≡ false
  has-named key d named present = elim (Bool-cases (key == "")) [
    | inl e ↦ let same : key ≡ "" = (eq_iff key "").0 e in cc (rw same at present)
    | inr e ↦ e
  ]

  has-insert_empty :
      (key : String) (e : CacheEntry A) (d : Dict (CacheEntry A))
      → key ≢ ""
      → has "" d ≡ false
      → has "" (insert key e d) ≡ false
  has-insert_empty key e d named h = ground (arith, eq_iff key "", lookup-insert key "" e d)

  has-remove_empty :
      (key : String) (d : Dict (CacheEntry A)) → has "" d ≡ false → has "" (remove key d) ≡ false
  has-remove_empty key d h = ground (arith, lookup-remove key "" d)

  length-insert-remove :
      (key found : String) (e : CacheEntry A) (d : Dict (CacheEntry A)) (n : ℕ)
      → length d ≤ n
      → has found d ≡ true
      → length (insert key e (remove found d)) ≤ n
  length-insert-remove key found e d n h present =
      ground (arith, length-insert key e (remove found d), length-remove_lt found d present)

  -- After `make_room` the entry of the key fits.
  length-make_room :
      (key : String) (e : CacheEntry A) (d : Dict (CacheEntry A))
      → length d ≤ max_entries
      → has "" d ≡ false
      → length (insert key e (make_room key d)) ≤ max_entries
  length-make_room key e d h named =
      elim (Bool-cases (not (ltb (length d) max_entries) && not (has key d))) [
        | inl full ↦
            let (found, is, present) = oldest-has d (ground arith) in
            rw (full, is, has-named found d named present)
              (length-insert-remove key found e d max_entries h present)
        | inr room ↦ rw room (ground (arith, length-insert key e d))
      ]

  has-make_room_empty :
      (key : String) (d : Dict (CacheEntry A)) → has "" d ≡ false → has "" (make_room key d) ≡ false
  has-make_room_empty key d named = elim (Option-cases (oldest_from none d)) [
    | inl nobody ↦ ground arith
    | inr (found, is) ↦ ground (arith, has-remove_empty found d)
  ]

  pub set-IsBounded :
      (s : CacheState A) (key : String) (value : A) (ttl_ms now : ℕ)
      → key ≢ ""
      → IsBounded s
      → IsBounded (set s key value ttl_ms now)
  unfolding set
  set-IsBounded s key value ttl_ms now named h = record {
    within = length-make_room key _ s.entries h.within h.named;
    named =
        has-insert_empty key _ (make_room key s.entries) named
          (has-make_room_empty key s.entries h.named);
  }

  get_or_load-IsBounded :
      (s : CacheState A) (key : String) (force : Bool) (ttl_ms : Option ℕ) (request now : ℕ)
      → key ≢ ""
      → IsBounded s
      → IsBounded (get_or_load s key force ttl_ms request now).0
  unfolding get_or_load
  get_or_load-IsBounded s key force ttl_ms request now named h =
      elim (Option-cases (lookup key s.entries)) [
        | inl missing ↦ rw missing (ground arith)
        | inr (e, found) ↦ rw found (
            ground (
              arith,
              length-insert key (touch e now) s.entries,
              has-insert_empty key (touch e now) s.entries named,
              has-remove_empty key s.entries,
              length-remove-le key s.entries,
            ))
      ]

  slot-IsBounded : (s : CacheState A) (l : Load) → IsBounded s → IsBounded (clear_slot s l)
  slot-IsBounded s l h = ground arith

  finish_load-IsBounded :
      (s : CacheState A) (l : Load) (value : Option A) (now : ℕ)
      → l.key ≢ ""
      → IsBounded s
      → IsBounded (finish_load s l value now)
  unfolding finish_load
  finish_load-IsBounded s l none now named h = slot-IsBounded s l h
  finish_load-IsBounded s l (some value) now named h =
      elim (Bool-cases (eqb (lookup_or 0 l.key s.generations) l.generation)) [
        | inl current ↦ rw current (
            slot-IsBounded (set s l.key value l.ttl_ms now) l
              (set-IsBounded s l.key value l.ttl_ms now named h))
        | inr stale ↦ rw stale (slot-IsBounded s l h)
      ]

  invalidate-IsBounded :
      (s : CacheState A) (prefix : String) → IsBounded s → IsBounded (invalidate s prefix)
  unfolding invalidate
  invalidate-IsBounded s prefix h = record {
    within =
        omega (arith, length-remove_keys-le (λ key. starts_with key prefix) s.entries, h.within);
    named =
        ground (arith, lookup-remove_keys (λ key. starts_with key prefix) "" s.entries, h.named);
  }

  -- The states that the calls of the service and the ends of loads lead to; no key is empty.
  pub data Reached (start : CacheState A) : CacheState A → Type 0 where
    here : Reached start start
    asked :
        {s : CacheState A} (key : String) (force : Bool) (ttl_ms : Option ℕ) (request now : ℕ)
        → key ≢ ""
        → Reached start s
        → Reached start (get_or_load s key force ttl_ms request now).0
    loaded :
        {s : CacheState A} (l : Load) (value : Option A) (now : ℕ)
        → l.key ≢ ""
        → Reached start s
        → Reached start (finish_load s l value now)
    stored :
        {s : CacheState A} (key : String) (value : A) (ttl_ms now : ℕ)
        → key ≢ ""
        → Reached start s
        → Reached start (set s key value ttl_ms now)
    flushed :
        {s : CacheState A} (prefix : String) → Reached start s → Reached start (invalidate s prefix)
    cleared : {s : CacheState A} → Reached start s → Reached start (clear s)

  clear-IsBounded : (s : CacheState A) → IsBounded (clear s)
  unfolding clear
  clear-IsBounded s = record { within = omega arith; named = refl }

  -- From a cache of at most 5000 entries, none of them with an empty key, whatever calls are made
  -- and loads end with keys that are not empty, in any order, the cache holds at most 5000 entries
  -- and none with an empty key.
  pub Reached-IsBounded : {start s : CacheState A} → IsBounded start → Reached start s → IsBounded s
  Reached-IsBounded h here = h
  Reached-IsBounded h (asked {s} key force ttl_ms request now named r) =
      get_or_load-IsBounded s key force ttl_ms request now named (Reached-IsBounded h r)
  Reached-IsBounded h (loaded {s} l value now named r) =
      finish_load-IsBounded s l value now named (Reached-IsBounded h r)
  Reached-IsBounded h (stored {s} key value ttl_ms now named r) =
      set-IsBounded s key value ttl_ms now named (Reached-IsBounded h r)
  Reached-IsBounded h (flushed {s} prefix r) = invalidate-IsBounded s prefix (Reached-IsBounded h r)
  Reached-IsBounded h (cleared {s} r) = clear-IsBounded s
