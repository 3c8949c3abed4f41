-- ===== src/Cache/Generations.antt =====
-- Loads that overlap with invalidations and flushes
-- (web-server/src/common/cache/list-cache.service.ts).
use Prim.Native.Nat.{max}
use text.Mathlib.Text.{starts_with}
use multi_academy_backend.Prelude.{
  ℕ, ◌+◌, ◌≤◌, ◌<◌, String, ◌≡◌, ◌≢◌, ◌⊎◌, inl, inr, refl, Bool, true, false, Option, none, some,
  [], ◌∷◌, arith, eq_refl, eqb, ltb, ◌∙◌, ◌==◌, eq_iff, Bool-cases, Option-cases,
}
use multi_academy_backend.Prelude.Dict.{
  Dict, lookup, lookup_or, insert, remove, lookup-insert, lookup-remove, lookup-remove_keys,
}
use multi_academy_backend.Cache.{
  CacheEntry, CacheState, Load, loading, raise, set, begin_load, look_up, get_or_load, clear_slot,
  finish_load, invalidate, clear,
}

raise-le :
    (prefix key : String) (running generations : Dict ℕ)
    → lookup_or 0 key generations ≤ lookup_or 0 key (raise prefix running generations)
raise-le prefix key [] generations = omega arith
raise-le prefix key ((k, r) ∷ running) generations = ground (
  arith,
  eq_iff k key,
  lookup-insert k key (lookup_or 0 k generations + 1) generations,
  raise-le prefix key running (insert k (lookup_or 0 k generations + 1) generations),
  raise-le prefix key running generations,
)

-- A key in flight with the prefix gets a new generation.
raise_lt :
    (prefix key : String) (running generations : Dict ℕ) (r : ℕ)
    → starts_with key prefix ≡ true
    → lookup key running ≡ some r
    → lookup_or 0 key generations < lookup_or 0 key (raise prefix running generations)
raise_lt prefix key [] generations r h found = cc
raise_lt prefix key ((k, q) ∷ running) generations r h found = elim (Bool-cases (k == key)) [
  | inl e ↦
      let same : k ≡ key = (eq_iff k key).0 e in
      rw (same, h)
        (ground (
          arith,
          eq_refl key,
          lookup-insert key key (lookup_or 0 key generations + 1) generations,
          raise-le prefix key running (insert key (lookup_or 0 key generations + 1) generations),
        ))
  | inr e ↦
      let later : lookup key running ≡ some r = rw e at found in
      ground (
        arith,
        e,
        lookup-insert k key (lookup_or 0 k generations + 1) generations,
        raise_lt prefix key running (insert k (lookup_or 0 k generations + 1) generations) r h
            later,
        raise_lt prefix key running generations r h later,
      )
]

module _ {A : Type 0} where
  abbrev pub gen_of : String → CacheState A → ℕ
  gen_of key s = lookup_or 0 key s.generations

  -- What may happen while a load runs: calls, the ends of other loads, stores, invalidations.
  -- `clear` is left out.
  pub data During (l : Load) (start : CacheState A) : CacheState A → Type 0 where
    here : During l start start
    asked :
        {s : CacheState A} (key : String) (force : Bool) (ttl_ms : Option ℕ) (request now : ℕ)
        → During l start s
        → During l start (get_or_load s key force ttl_ms request now).0
    loaded :
        {s : CacheState A} (other : Load) (value : Option A) (now : ℕ)
        → other.request ≢ l.request
        → During l start s
        → During l start (finish_load s other value now)
    stored :
        {s : CacheState A} (key : String) (value : A) (ttl_ms now : ℕ)
        → During l start s
        → During l start (set s key value ttl_ms now)
    flushed :
        {s : CacheState A} (prefix : String)
        → During l start s
        → During l start (invalidate s prefix)

  -- A running load holds the slot of its key, or its generation is past.
  abbrev IsRunning : Load → CacheState A → Type 0
  IsRunning l s = (lookup l.key s.in_flight ≡ some l.request) ⊎ (l.generation < gen_of l.key s)

  begin-IsRunning :
      (l : Load) (s : CacheState A) (key : String) (ttl_ms : Option ℕ) (request : ℕ)
      → IsRunning l s
      → IsRunning l (begin_load s key ttl_ms request).0
  begin-IsRunning l s key ttl_ms request h =
      ground (arith, eq_iff key l.key, same_slot, lookup-insert key l.key request s.in_flight)
    where
      same_slot : key ≡ l.key → lookup key s.in_flight ≡ lookup l.key s.in_flight
      same_slot e = rw e

  get_or_load-IsRunning :
      (l : Load) (s : CacheState A) (key : String) (force : Bool) (ttl_ms : Option ℕ)
      (request now : ℕ)
      → IsRunning l s
      → IsRunning l (get_or_load s key force ttl_ms request now).0
  unfolding get_or_load
  get_or_load-IsRunning l s key true ttl_ms request now h = begin-IsRunning l s key ttl_ms request h
  get_or_load-IsRunning l s key false ttl_ms request now h =
      elim (Option-cases (lookup key s.entries)) [
        | inl missing ↦ rw (missing, look_up) (begin-IsRunning l s key ttl_ms request h)
        | inr (e, found) ↦ elim (Bool-cases (ltb now e.expires_at)) [
          | inl fresh ↦ rw (found, look_up, fresh) h
          | inr late ↦
              rw (found, look_up, late)
                (begin-IsRunning l (record s { entries = remove key s.entries }) key ttl_ms request
                  h)
        ]
      ]

  slot-IsRunning :
      (l other : Load) (s : CacheState A)
      → other.request ≢ l.request
      → IsRunning l s
      → IsRunning l (clear_slot s other)
  slot-IsRunning l other s differ h =
      ground (arith, eq_iff other.key l.key, same_slot, lookup-remove other.key l.key s.in_flight)
    where
      same_slot : other.key ≡ l.key → lookup other.key s.in_flight ≡ lookup l.key s.in_flight
      same_slot e = rw e

  finish-IsRunning :
      (l other : Load) (s : CacheState A) (value : Option A) (now : ℕ)
      → other.request ≢ l.request
      → IsRunning l s
      → IsRunning l (finish_load s other value now)
  unfolding finish_load
  finish-IsRunning l other s none now differ h = slot-IsRunning l other s differ h
  finish-IsRunning l other s (some value) now differ h =
      elim (Bool-cases (eqb (lookup_or 0 other.key s.generations) other.generation)) [
        | inl current ↦
            rw current (slot-IsRunning l other (set s other.key value other.ttl_ms now) differ h)
        | inr stale ↦ rw stale (slot-IsRunning l other s differ h)
      ]

  -- An invalidation of the key puts a running load's generation in the past.
  invalidate_past :
      (l : Load) (s : CacheState A) (prefix : String)
      → starts_with l.key prefix ≡ true
      → l.generation ≤ gen_of l.key s
      → IsRunning l s
      → l.generation < gen_of l.key (invalidate s prefix)
  unfolding invalidate
  invalidate_past l s prefix h le (inl slot) =
      omega (arith, raise_lt prefix l.key s.in_flight s.generations l.request h slot)
  invalidate_past l s prefix h le (inr past) =
      omega (arith, raise-le prefix l.key s.in_flight s.generations)

  invalidate-le :
      (l : Load) (s : CacheState A) (prefix : String)
      → gen_of l.key s ≤ gen_of l.key (invalidate s prefix)
  unfolding invalidate
  invalidate-le l s prefix = raise-le prefix l.key s.in_flight s.generations

  invalidate-IsRunning :
      (l : Load) (s : CacheState A) (prefix : String)
      → l.generation ≤ gen_of l.key s
      → IsRunning l s
      → IsRunning l (invalidate s prefix)
  unfolding invalidate
  invalidate-IsRunning l s prefix le h = elim (Bool-cases (starts_with l.key prefix)) [
    | inl covered ↦ inr (invalidate_past l s prefix covered le h)
    | inr kept ↦
        let past = raise-le prefix l.key s.in_flight s.generations in
        let slot = lookup-remove_keys (λ key. starts_with key prefix) l.key s.in_flight in
        elim h [
          | inl running ↦ inl (slot ∙ (rw kept running))
          | inr late ↦ inr (omega (arith, late, past))
        ]
  ]

  -- The generation of the key never falls below the load's, and the load stays running.
  abbrev Holds : Load → CacheState A → Type 0
  Holds l s = (l.generation ≤ gen_of l.key s) × IsRunning l s

  get_or_load-gen :
      (s : CacheState A) (key : String) (force : Bool) (ttl_ms : Option ℕ) (request now : ℕ)
      → (get_or_load s key force ttl_ms request now).0.generations ≡ s.generations
  unfolding get_or_load
  get_or_load-gen s key force ttl_ms request now = ground arith

  finish_load-gen :
      (s : CacheState A) (l : Load) (value : Option A) (now : ℕ)
      → (finish_load s l value now).generations ≡ s.generations
  unfolding finish_load
  finish_load-gen s l none now = ground arith
  finish_load-gen s l (some value) now = ground arith

  During-Holds : {l : Load} {start s : CacheState A} → Holds l start → During l start s → Holds l s
  unfolding set
  During-Holds h here = h
  During-Holds {l} h (asked {s} key force ttl_ms request now d) =
      let (le, run) = During-Holds h d in
      (
        rw (get_or_load-gen s key force ttl_ms request now) le,
        get_or_load-IsRunning l s key force ttl_ms request now run,
      )
  During-Holds {l} h (loaded {s} other value now differ d) =
      let (le, run) = During-Holds h d in
      (rw (finish_load-gen s other value now) le, finish-IsRunning l other s value now differ run)
  During-Holds h (stored key value ttl_ms now d) = During-Holds h d
  During-Holds {l} h (flushed {s} prefix d) =
      let (le, run) = During-Holds h d in
      (omega (arith, le, invalidate-le l s prefix), invalidate-IsRunning l s prefix le run)

  During-past :
      {l : Load} {start s : CacheState A}
      → l.generation < gen_of l.key start
      → During l start s
      → l.generation < gen_of l.key s
  unfolding set invalidate
  During-past h here = h
  During-past {l} h (asked {s} key force ttl_ms request now d) =
      rw (get_or_load-gen s key force ttl_ms request now) (During-past h d)
  During-past {l} h (loaded {s} other value now differ d) =
      rw (finish_load-gen s other value now) (During-past h d)
  During-past h (stored key value ttl_ms now d) = During-past h d
  During-past {l} h (flushed {s} prefix d) =
      omega (arith, During-past h d, raise-le prefix l.key s.in_flight s.generations)

  begin-Holds :
      (s : CacheState A) (key : String) (ttl_ms : Option ℕ) (request : ℕ) (l : Load)
      → (begin_load s key ttl_ms request).1 ≡ loading l
      → (l.key ≡ key) × Holds l (begin_load s key ttl_ms request).0
  begin-Holds s key ttl_ms request l e = elim (Option-cases (lookup key s.in_flight)) [
    | inl free ↦
        let same : l.key ≡ key = ground arith in
        rw same (ground (arith, lookup-insert key key request s.in_flight, eq_refl key))
    | inr (pending, busy) ↦ ground arith
  ]

  started-Holds :
      (s : CacheState A) (key : String) (force : Bool) (ttl_ms : Option ℕ) (request now : ℕ)
      (l : Load)
      → (get_or_load s key force ttl_ms request now).1 ≡ loading l
      → (l.key ≡ key) × Holds l (get_or_load s key force ttl_ms request now).0
  unfolding get_or_load
  started-Holds s key true ttl_ms request now l e = begin-Holds s key ttl_ms request l e
  started-Holds s key false ttl_ms request now l e = elim (Option-cases (lookup key s.entries)) [
    | inl missing ↦
        rw (missing, look_up) (begin-Holds s key ttl_ms request l (rw (missing, look_up) at e))
    | inr (c, found) ↦ elim (Bool-cases (ltb now c.expires_at)) [
      | inl fresh ↦ ground arith
      | inr late ↦
          rw (found, look_up, late)
            (begin-Holds (record s { entries = remove key s.entries }) key ttl_ms request l
              (rw (found, look_up, late) at e))
    ]
  ]

  past_not_stored :
      (s : CacheState A) (l : Load) (value : Option A) (now : ℕ)
      → l.generation < gen_of l.key s
      → (finish_load s l value now).entries ≡ s.entries
  unfolding finish_load
  past_not_stored s l none now h = ground arith
  past_not_stored s l (some value) now h = ground arith

  -- A call starts a load; later a prefix of its key is invalidated; when the load ends after that,
  -- whatever came before the load and whatever calls but a clear of the whole cache came in between
  -- (loads, stores and invalidations), its value is not stored.
  pub invalidated_load_not_stored :
      (s u v : CacheState A) (key prefix : String) (force : Bool) (ttl_ms : Option ℕ)
      (request now : ℕ) (l : Load) (value : Option A) (end : ℕ)
      → (get_or_load s key force ttl_ms request now).1 ≡ loading l
      → During l (get_or_load s key force ttl_ms request now).0 u
      → starts_with key prefix ≡ true
      → During l (invalidate u prefix) v
      → (finish_load v l value end).entries ≡ v.entries
  invalidated_load_not_stored s u v key prefix force ttl_ms request now l value end e before h
        after =
      let (same, held) = started-Holds s key force ttl_ms request now l e in
      let (le, run) = During-Holds held before in
      past_not_stored v l value end
        (During-past (invalidate_past l u prefix (rw same h) le run) after)

  -- A load of generation 0 that was running when the whole cache was cleared does fill it: `clear`
  -- forgets the generations too.
  pub cleared_load_stored :
      (s : CacheState A) (l : Load) (value : A) (now : ℕ)
      → l.generation ≡ 0
      → (e : CacheEntry A) × (lookup l.key (finish_load (clear s) l (some value) now).entries
          ≡ some e)
        × (e.value ≡ value)
  unfolding finish_load clear
  cleared_load_stored s l value now h = (
    record { value = value; touched_at = now; expires_at = now + max 1000 l.ttl_ms },
    rw (h, eq_refl),
    refl,
  )
