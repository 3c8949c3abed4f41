-- ===== src/Auth/Freshness.antt =====
-- The age of an authority
-- (`getAuthority` of web-server/src/control-plane/user-authority.service.ts).
use multi_academy_backend.Prelude.{
  ℕ, ◌+◌, ◌≤◌, String, ◌≡◌, refl, inl, inr, Option, none, some, [], ◌==◌, arith, Bool-cases,
  Option-cases,
}
use multi_academy_backend.Prelude.Dict.{lookup, insert, remove, lookup-insert, lookup-remove}
use multi_academy_backend.Tenant.{Environment}
use multi_academy_backend.Auth.Authority.{
  StoredUser, UserAuthority, CacheEntry, Authorities, ttl_ms, key_of, authority_of, fresh, load,
  get_authority, invalidate,
}

-- No entry outlives the last call by more than half a minute.
abbrev pub ExpiresBy : ℕ → Authorities → Type 0
ExpiresBy t cache =
    (key : String) (e : CacheEntry) → lookup key cache ≡ some e → e.expires_at ≤ t + ttl_ms

same_entry : {a b : CacheEntry} → some a ≡ some b → a ≡ b
same_entry e = cc

ExpiresBy-remove :
    (t : ℕ) (k : String) (cache : Authorities) → ExpiresBy t cache → ExpiresBy t (remove k cache)
ExpiresBy-remove t k cache h key e found =
    let found' = rw lookup-remove at found in
    elim (Bool-cases (k == key)) [
      | inl hit ↦ absurd (nothing (rw hit at found'))
      | inr other ↦ h key e (rw other at found')
    ]
  where
    nothing : {e : CacheEntry} → none ≡ some e → ⊥
    nothing e = cc

ExpiresBy-insert :
    (t : ℕ) (k : String) (v : CacheEntry) (cache : Authorities)
    → v.expires_at ≤ t + ttl_ms
    → ExpiresBy t cache
    → ExpiresBy t (insert k v cache)
ExpiresBy-insert t k v cache fits h key e found =
    let found' = rw lookup-insert at found in
    elim (Bool-cases (k == key)) [
      | inl hit ↦ let same = same_entry (rw hit at found') in rw (← same) fits
      | inr other ↦ h key e (rw other at found')
    ]

module _ (env : Environment) where
  -- What the control plane says of a user now.
  abbrev pub live : Option StoredUser → Option UserAuthority
  live none = none
  live (some u) = some (authority_of env u)

  -- Calls until a time, whatever the control plane said at each of them.
  pub data Used (t : ℕ) : Authorities → Type 0 where
    unused : Used t []
    asked :
        {cache : Authorities} (users : String → String → Option StoredUser)
        (tenant_id user_id : String) (now : ℕ)
        → now ≤ t
        → Used t cache
        → Used t (get_authority env users tenant_id user_id now cache).1
    invalidated :
        {cache : Authorities} (tenant_id user_id : String)
        → Used t cache
        → Used t (invalidate env tenant_id user_id cache)

  get_authority-ExpiresBy :
      (t : ℕ) (users : String → String → Option StoredUser) (tenant_id user_id : String) (now : ℕ)
      (cache : Authorities)
      → now ≤ t
      → ExpiresBy t cache
      → ExpiresBy t (get_authority env users tenant_id user_id now cache).1
  unfolding get_authority
  get_authority-ExpiresBy t users tenant_id user_id now cache early h =
      elim (Option-cases (fresh env now (lookup (key_of tenant_id user_id) cache))) [
        | inr (v, hit) ↦ rw (get_authority, hit) h
        | inl miss ↦ rw (get_authority, miss) (loaded (users tenant_id user_id))
      ]
    where
      loaded :
          (found : Option StoredUser)
          → ExpiresBy t (load env found (key_of tenant_id user_id) now cache).1
      loaded none = ExpiresBy-remove t (key_of tenant_id user_id) cache h
      loaded (some u) =
          ExpiresBy-insert t (key_of tenant_id user_id) _ cache (omega (arith, early)) h

  Used-ExpiresBy : {t : ℕ} {cache : Authorities} → Used t cache → ExpiresBy t cache
  unfolding invalidate
  Used-ExpiresBy unused = λ key e found. cc
  Used-ExpiresBy {t} (asked {cache} users tenant_id user_id now early r) =
      get_authority-ExpiresBy t users tenant_id user_id now cache early (Used-ExpiresBy r)
  Used-ExpiresBy {t} (invalidated {cache} tenant_id user_id r) =
      ExpiresBy-remove t (key_of tenant_id user_id) cache (Used-ExpiresBy r)

  stale :
      (t now : ℕ) (o : Option CacheEntry)
      → ((e : CacheEntry) → o ≡ some e → e.expires_at ≤ t + ttl_ms)
      → t + ttl_ms ≤ now
      → fresh env now o ≡ none
  stale t now none h late = refl
  stale t now (some e) h late = ground (arith, h e refl)

  -- Half a minute after the last call, whatever was answered until then, the guard gets what the control
  -- plane says now: the roles of the moment, or nothing for a user who is gone.
  pub get_authority-live :
      (t now : ℕ) (users : String → String → Option StoredUser) (tenant_id user_id : String)
      (cache : Authorities)
      → Used t cache
      → t + ttl_ms ≤ now
      → (get_authority env users tenant_id user_id now cache).0 ≡ live (users tenant_id user_id)
  unfolding get_authority
  get_authority-live t now users tenant_id user_id cache used late =
      rw
        (
          get_authority,
          stale t now (lookup (key_of tenant_id user_id) cache)
              (Used-ExpiresBy used (key_of tenant_id user_id)) late,
        )
        (loads (users tenant_id user_id))
    where
      loads :
          (found : Option StoredUser)
          → (load env found (key_of tenant_id user_id) now cache).0 ≡ live found
      loads none = refl
      loads (some u) = refl
