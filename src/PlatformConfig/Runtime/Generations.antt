-- ===== src/PlatformConfig/Runtime/Generations.antt =====
-- Refreshes that overlap with invalidations
-- (`refresh` and `invalidate` of web-server/src/platform-config/runtime-config.service.ts).
use multi_academy_backend.Prelude.{
  ℕ, ◌+◌, ◌≤◌, ◌<◌, String, ◌≡◌, ◌⊎◌, inl, inr, ap, ◌∙◌, Bool, false, Option, none, some, arith,
  eq_iff, Bool-cases, Option-cases,
}
use multi_academy_backend.Prelude.Dict.{lookup_or, lookup-insert}
use multi_academy_backend.PlatformConfig.Config.{TenantRuntimeConfig}
use multi_academy_backend.PlatformConfig.Runtime.{
  RuntimeState, CacheEntry, Task, Settings, start_refresh, finish_refresh, invalidate, get_config,
  evict_if_full, oldest_from, clear_slot, is_current, store,
}

abbrev pub gen_of : String → RuntimeState → ℕ
gen_of id s = lookup_or 0 id s.generation

-- Generations only grow.
pub record Grows (s u : RuntimeState) : Type 0 where
  pub tenants : (id : String) → gen_of id s ≤ gen_of id u
  pub all : s.global_generation ≤ u.global_generation

-- What the service may do between two moments: refreshes start and end, calls read through Redis,
-- the webhook invalidates.
pub data Later (s : RuntimeState) : RuntimeState → Type 0 where
  now : Later s s
  started :
      {u : RuntimeState} (tenant_id : String) (task : ℕ)
      → Later s u
      → Later s (start_refresh u tenant_id task).0
  finished :
      {u : RuntimeState} (t : Task) (pulled : Option TenantRuntimeConfig) (at : ℕ)
      → Later s u
      → Later s (finish_refresh u t pulled at)
  asked :
      {u : RuntimeState} (settings : Settings) (tenant_id : String) (force : Bool) (at : ℕ)
      (redis : Option CacheEntry) (pulled : Option TenantRuntimeConfig)
      → Later s u
      → Later s (get_config settings u tenant_id force at redis pulled).0
  invalidated :
      {u : RuntimeState} (target : Option String) → Later s u → Later s (invalidate u target)

-- Nothing but an invalidation touches the generations.
abbrev KeepsGenerations : RuntimeState → RuntimeState → Type 0
KeepsGenerations s u = (u.generation ≡ s.generation) × (u.global_generation ≡ s.global_generation)

start-KeepsGenerations :
    (s : RuntimeState) (id : String) (task : ℕ) → KeepsGenerations s (start_refresh s id task).0
unfolding start_refresh
start-KeepsGenerations s id task = ground arith

evict-KeepsGenerations : (s : RuntimeState) → KeepsGenerations s (evict_if_full s)
unfolding evict_if_full
evict-KeepsGenerations s = elim (Option-cases (oldest_from none s.cache)) [
  | inl nobody ↦ ground arith
  | inr (id, found) ↦ ground arith
]

slot-KeepsGenerations : (s : RuntimeState) (t : Task) → KeepsGenerations s (clear_slot s t)
slot-KeepsGenerations s t = ground arith

finish-KeepsGenerations :
    (s : RuntimeState) (t : Task) (pulled : Option TenantRuntimeConfig) (at : ℕ)
    → KeepsGenerations s (finish_refresh s t pulled at)
unfolding finish_refresh
finish-KeepsGenerations s t none at = slot-KeepsGenerations s t
finish-KeepsGenerations s t (some config) at = elim (Bool-cases (is_current s t)) [
  | inl current ↦
      let (a, b) = slot-KeepsGenerations (store (evict_if_full s) t config at) t in
      let (c, d) = evict-KeepsGenerations s in rw current (a ∙ c, b ∙ d)
  | inr stale ↦ rw stale (slot-KeepsGenerations s t)
]

ask-KeepsGenerations :
    (settings : Settings) (s : RuntimeState) (id : String) (force : Bool) (at : ℕ)
    (redis : Option CacheEntry) (pulled : Option TenantRuntimeConfig)
    → KeepsGenerations s (get_config settings s id force at redis pulled).0
unfolding get_config
ask-KeepsGenerations settings s id force at none pulled = ground arith
ask-KeepsGenerations settings s id force at (some e) pulled = ground arith

Grows-of_keeps : {s u v : RuntimeState} → Grows s u → KeepsGenerations u v → Grows s v
Grows-of_keeps g (e, f) = record { tenants = λ id. rw e (g.tenants id); all = rw f g.all }

invalidate-Grows : (s : RuntimeState) (target : Option String) → Grows s (invalidate s target)
unfolding invalidate
invalidate-Grows s none = record { tenants = λ id. omega arith; all = omega arith }
invalidate-Grows s (some target) = record {
  tenants = λ id. ground (
    arith,
    eq_iff target id,
    lookup-insert target id (lookup_or 0 target s.generation + 1) s.generation,
  );
  all = ground arith;
}

Grows-trans : {s u v : RuntimeState} → Grows s u → Grows u v → Grows s v
Grows-trans g h = record {
  tenants = λ id. omega (arith, g.tenants id, h.tenants id);
  all = omega (arith, g.all, h.all);
}

Later-Grows : {s u : RuntimeState} → Later s u → Grows s u
Later-Grows now = record { tenants = λ id. omega arith; all = omega arith }
Later-Grows (started {u} id task l) =
    Grows-of_keeps (Later-Grows l) (start-KeepsGenerations u id task)
Later-Grows (finished {u} t pulled at l) =
    Grows-of_keeps (Later-Grows l) (finish-KeepsGenerations u t pulled at)
Later-Grows (asked {u} settings id force at redis pulled l) =
    Grows-of_keeps (Later-Grows l) (ask-KeepsGenerations settings u id force at redis pulled)
Later-Grows (invalidated {u} target l) = Grows-trans (Later-Grows l) (invalidate-Grows u target)

-- The invalidation concerns the tenant: it names the tenant, or nobody.
abbrev pub Concerns : String → Option String → Type 0
Concerns id none = Unit
Concerns id (some target) = target ≡ id

invalidate_raises :
    (s : RuntimeState) (id : String) (target : Option String)
    → Concerns id target
    → (gen_of id s < gen_of id (invalidate s target))
      ⊎ (s.global_generation < (invalidate s target).global_generation)
unfolding invalidate
invalidate_raises s id none c = inr (omega arith)
invalidate_raises s id (some target) c = ground (
  arith,
  eq_iff target id,
  lookup-insert target id (lookup_or 0 target s.generation + 1) s.generation,
)

started_task :
    (s : RuntimeState) (id : String) (task : ℕ) {t : Task}
    → (start_refresh s id task).1 ≡ some t
    → (t.tenant_id ≡ id) × (t.gen ≡ gen_of id s) × (t.global_gen ≡ s.global_generation)
unfolding start_refresh
started_task s id task e = ground arith

stale_finish :
    (s : RuntimeState) (t : Task) (pulled : Option TenantRuntimeConfig) (at : ℕ)
    → is_current s t ≡ false
    → ((finish_refresh s t pulled at).cache ≡ s.cache)
      × ((finish_refresh s t pulled at).last_version ≡ s.last_version)
unfolding finish_refresh
stale_finish s t none at stale = ground arith
stale_finish s t (some config) at stale = ground arith

-- A refresh of a tenant starts; later the tenant's configuration, or every configuration, is
-- invalidated; when the refresh ends after that, whatever happened before and in between, the
-- configuration that it brings is not stored.
pub invalidated_refresh_not_stored :
    (s u v : RuntimeState) (id : String) (task : ℕ) (t : Task) (target : Option String)
    (pulled : Option TenantRuntimeConfig) (at : ℕ)
    → (start_refresh s id task).1 ≡ some t
    → Later (start_refresh s id task).0 u
    → Concerns id target
    → Later (invalidate u target) v
    → ((finish_refresh v t pulled at).cache ≡ v.cache)
      × ((finish_refresh v t pulled at).last_version ≡ v.last_version)
invalidated_refresh_not_stored s u v id task t target pulled at e before c after =
    let (same, gen, global_gen) = started_task s id task e in
    let (kept, kept_all) = start-KeepsGenerations s id task in
    let g = Later-Grows before in
    let h = Later-Grows after in
    stale_finish v t pulled at (
      ground (
        arith,
        ap (λ x. lookup_or 0 x v.generation) same,
        ap (λ d. lookup_or 0 id d) kept,
        g.tenants id,
        g.all,
        h.tenants id,
        h.all,
        invalidate_raises u id target c,
      ))
