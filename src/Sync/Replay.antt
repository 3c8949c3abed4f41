-- ===== src/Sync/Replay.antt =====
-- Operations that a client sends again (`apply` of web-server/src/sync/sync.service.ts).
use multi_academy_backend.Prelude.{
  String, ◌≡◌, refl, Bool, true, false, ◌||◌, Option, none, some, List, [], ◌∷◌, ◌++◌, ◌==◌, arith,
  any, eq_refl,
}
use multi_academy_backend.Http.{ok}
use multi_academy_backend.Http.Checked.{
  checked-state, checked-ok, required, passed, thrown, returned,
}
use multi_academy_backend.Tenant.{Environment}
use multi_academy_backend.Sync.{
  Payload, SyncBody, Operation, SyncDb, Status, Change, change_rows, operation_of, write_operation,
  is_recorded, apply_supported, once, may_apply, apply,
}

any-append :
    (p : Operation → Bool) (xs : List Operation) (x : Operation)
    → any p (xs ++ x ∷ []) ≡ (any p xs || p x)
any-append p [] x = ground arith
any-append p (y ∷ xs) x = ground (arith, any-append p xs x)

change_rows_operations :
    (user_id : String) (c : Change) (db : SyncDb)
    → (change_rows user_id c db).operations ≡ db.operations
change_rows_operations user_id (Change.note_created n) db = refl
change_rows_operations user_id (Change.note_updated id p) db = refl
change_rows_operations user_id (Change.slot_created s) db = refl

-- What a write records.
write_recorded :
    (user_id : String) (body : SyncBody) (p : Payload) (c : Change) (db : SyncDb) (k : String)
    → is_recorded k (write_operation user_id body (some (p, c)) db)
      ≡ (is_recorded k db || body.operation_id == k)
write_recorded user_id body p c db k =
    rw (change_rows_operations user_id c db)
      (any-append _ db.operations (operation_of user_id body p))

once_recorded : (b : Bool) (change : Option (Payload × Change)) → once b change ≡ ok none → b ≡ true
unfolding once
once_recorded true change h = refl
once_recorded false change h =
    let (c, _, e) = thrown change _ _ h in absurd (elim_none (returned e))
  where
    elim_none : {c : Payload × Change} → some c ≡ none → ⊥
    elim_none e = cc

once_skips :
    (change : Option (Payload × Change)) {a : Option (Payload × Change)}
    → once true change ≡ ok a
    → none ≡ a
unfolding once
once_skips change h = returned h

module _ (env : Environment) (tenant_id : String) where
  -- The last check decides what is written.
  may_apply-once :
      (user_id fresh : String) (body : SyncBody) (db : SyncDb) {a : Option (Payload × Change)}
      → may_apply env tenant_id user_id fresh body db ≡ ok a
      → once (is_recorded body.operation_id db) (apply_supported fresh user_id body body.payload)
        ≡ ok a
  unfolding may_apply
  may_apply-once user_id fresh body db h =
      let (_, h1) = passed _ _ h in
      let (_, h2) = required _ _ _ h1 in let (_, h3) = passed _ _ h2 in h3

  apply-is_recorded :
      (user_id fresh : String) (body : SyncBody) (db : SyncDb) (k : String)
      → is_recorded k db ≡ true
      → is_recorded k (apply env tenant_id user_id fresh body db).1 ≡ true
  unfolding apply
  apply-is_recorded user_id fresh body db k h =
      checked-state (λ s. is_recorded k s ≡ true) _ _ _ db h (λ a _. still a)
    where
      still :
          (a : Option (Payload × Change)) → is_recorded k (write_operation user_id body a db) ≡ true
      still none = h
      still (some (p, c)) = rw (write_recorded user_id body p c db k, h) refl

  answered-is_recorded :
      (user_id fresh : String) (body : SyncBody) (db : SyncDb) {r : Status}
      → (apply env tenant_id user_id fresh body db).0 ≡ ok r
      → is_recorded body.operation_id (apply env tenant_id user_id fresh body db).1 ≡ true
  unfolding apply
  answered-is_recorded user_id fresh body db h =
      let (a, passes, _, state) = checked-ok _ _ _ db h in
      rw state (written a (may_apply-once user_id fresh body db passes))
    where
      written :
          (a : Option (Payload × Change))
          → once
              (is_recorded body.operation_id db)
              (apply_supported fresh user_id body body.payload)
            ≡ ok a
          → is_recorded body.operation_id (write_operation user_id body a db) ≡ true
      written none e = once_recorded _ _ e
      written (some (p, c)) e =
          rw (write_recorded user_id body p c db body.operation_id, eq_refl body.operation_id)
            (ground arith)

  recorded_skips :
      (user_id fresh : String) (body : SyncBody) (db : SyncDb)
      → is_recorded body.operation_id db ≡ true
      → (apply env tenant_id user_id fresh body db).1 ≡ db
  unfolding apply
  recorded_skips user_id fresh body db h =
      checked-state (λ s. s ≡ db) _ _ _ db refl
        λ a passes.
          let e = may_apply-once user_id fresh body db passes in
          let skipped = rw h at e in rw (← once_skips _ skipped) refl

  -- Any operations that arrive in the meantime.
  pub data Later (start : SyncDb) : SyncDb → Type 0 where
    at_once : Later start start
    after :
        {db : SyncDb} (user_id fresh : String) (body : SyncBody)
        → Later start db
        → Later start (apply env tenant_id user_id fresh body db).1

  Later-is_recorded :
      {start db : SyncDb} (k : String)
      → is_recorded k start ≡ true
      → Later start db
      → is_recorded k db ≡ true
  Later-is_recorded k h at_once = h
  Later-is_recorded k h (after {db} user_id fresh body r) =
      apply-is_recorded user_id fresh body db k (Later-is_recorded k h r)

  -- Once an operation's id was answered, an operation of that id changes nothing, whoever sends it
  -- with whatever content, and whatever arrived in between.
  pub apply_again :
      (user_id user_id' fresh fresh' : String) (body body' : SyncBody) (db later : SyncDb)
      {r : Status}
      → (apply env tenant_id user_id fresh body db).0 ≡ ok r
      → Later (apply env tenant_id user_id fresh body db).1 later
      → body'.operation_id ≡ body.operation_id
      → (apply env tenant_id user_id' fresh' body' later).1 ≡ later
  apply_again user_id user_id' fresh fresh' body body' db later answered between same =
      recorded_skips user_id' fresh' body' later (
        rw same (
          Later-is_recorded body.operation_id (answered-is_recorded user_id fresh body db answered)
            between))
