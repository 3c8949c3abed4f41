-- ===== src/Ops/Library/Balance.antt =====
-- The copies of each item (web-server/src/library/library.service.ts).
use multi_academy_backend.Prelude.{
  ℕ, ◌+◌, ◌≤◌, String, ◌≡◌, inl, inr, refl, Bool, true, false, not, ◌&&◌, Option, none, some, List,
  [], ◌∷◌, ◌++◌, arith, ◌==◌, if◌then◌else◌, find_first, update_where, find_first-update_where,
  find_first-passes, count_where, count_where-append, Bool-cases, Option-cases, eq_iff, ltb,
  includes, or_null,
}
use multi_academy_backend.Prelude.Int.{ℤ}
use multi_academy_backend.Prelude.Keyed.{change, keyed-update, keyed-append}
use multi_academy_backend.Http.{ok}
use multi_academy_backend.Tenant.{Environment, enter, get_user_roles, is_linked}
use multi_academy_backend.Ops.Library.{
  Item, Loan, LibraryDb, is_item, is_loan, take_copy, put_copy, give_back, LoanBody, hand_out,
  returned, already_returned, create_item, lend, loan, take_back, return_loan, new_loan,
  resolve_borrower_id,
}

abbrev pub is_out : String → Loan → Bool
is_out item_id l = l.item_id == item_id && not l.returned

-- The copies of an item, all of them and those on the shelf; an item that does not exist has none.
abbrev pub copies_of : Option Item → ℕ
copies_of none = 0
copies_of (some i) = i.copies

abbrev pub shelf_of : Option Item → ℕ
shelf_of none = 0
shelf_of (some i) = i.available

abbrev pub item_of : String → List Item → Option Item
item_of id items = find_first (is_item id) items

-- Every copy is on the shelf or on loan, and a loan's id, the primary key, stands once.
pub record IsBalanced (db : LibraryDb) : Type 0 where
  pub copies :
      (id : String)
      → shelf_of (item_of id db.items) + count_where (is_out id) db.loans
        ≡ copies_of (item_of id db.items)
  pub unique : (id : String) → count_where (is_loan id) db.loans ≤ 1

shelf-put : (i : Option Item) → 1 ≤ copies_of i → shelf_of (change put_copy i) ≡ shelf_of i + 1
shelf-put none h = omega (arith, h)
shelf-put (some i) h = refl

copies-put : (i : Option Item) → copies_of (change put_copy i) ≡ copies_of i
copies-put none = refl
copies-put (some i) = refl

none_out :
    (k : String) (loans : List Loan)
    → count_where (is_loan k) loans ≡ 0
    → update_where (is_loan k) give_back loans ≡ loans
none_out k [] h = refl
none_out k (l ∷ loans) h = ground (arith, none_out k loans)

-- A loan that comes back is no longer out.
out-give_back :
    (k j : String) (loans : List Loan) (l : Loan)
    → count_where (is_loan k) loans ≤ 1
    → find_first (is_loan k) loans ≡ some l
    → l.returned ≡ false
    → count_where (is_out j) (update_where (is_loan k) give_back loans)
        + (if l.item_id == j then 1 else 0)
      ≡ count_where (is_out j) loans
out-give_back k j [] l once found out = cc
out-give_back k j (x ∷ loans) l once found out = elim (Bool-cases (is_loan k x)) [
  | inr later ↦
      let fewer : count_where (is_loan k) loans ≤ 1 = ground (arith, later) in
      let rest = out-give_back k j loans l fewer (rw later at found) out in
      rw later (omega (arith, rest))
  | inl here ↦
      let none_left : count_where (is_loan k) loans ≡ 0 = ground (arith, here) in
      let same : x ≡ l = ground (arith, here) in
      rw (here, none_out k loans none_left, same) (ground arith)
]

loan_ids-give_back :
    (k j : String) (loans : List Loan)
    → count_where (is_loan j) (update_where (is_loan k) give_back loans)
      ≡ count_where (is_loan j) loans
loan_ids-give_back k j [] = refl
loan_ids-give_back k j (l ∷ loans) = ground (arith, loan_ids-give_back k j loans)

-- A new item is balanced, whose id no item has.
added-IsBalanced :
    (new : Item) (db : LibraryDb)
    → IsBalanced db
    → item_of new.id db.items ≡ none
    → new.available ≡ new.copies
    → IsBalanced (record db { items = db.items ++ new ∷ [] })
added-IsBalanced new db h fresh full = record {
  copies = λ j.
      let added = keyed-append Item.id j db.items new in
      elim (Bool-cases (new.id == j)) [
        | inl this ↦
            let e : new.id ≡ j = (eq_iff new.id j).0 this in
            let absent : item_of j db.items ≡ none = rw e at fresh in
            let before : 0 + count_where (is_out j) db.loans ≡ 0 =
              (let k = h.copies j in rw absent at k) in
            rw (added, absent, this) (ground (arith, before, full))
        | inr other ↦ elim (Option-cases (item_of j db.items)) [
          | inl absent ↦ rw (added, absent, other) (let before = h.copies j in rw absent at before)
          | inr (i, found) ↦ rw (added, found) (let before = h.copies j in rw found at before)
        ]
      ];
  unique = h.unique;
}

same_count :
    (id j : String) (loans : List Loan)
    → id ≡ j
    → count_where (is_loan id) loans ≡ count_where (is_loan j) loans
same_count id j loans e = rw e

module _ (env : Environment) (tenant_id : String) where
  lend-IsBalanced :
      (id : String) (body : LoanBody) (borrower_id : String) (db : LibraryDb) (i : Item)
      → IsBalanced db
      → count_where (is_loan id) db.loans ≡ 0
      → item_of body.item_id db.items ≡ some i
      → 1 ≤ i.available
      → IsBalanced (lend env tenant_id id body borrower_id db)
  lend-IsBalanced id body borrower_id db i h fresh found shelf = record {
    copies = λ j.
        let changed = keyed-update Item.id take_copy body.item_id j db.items (λ x. refl) in
        let before = h.copies j in
        let added =
          count_where-append (is_out j) db.loans
            (new_loan env tenant_id id body borrower_id ∷ []) in
        elim (Bool-cases (body.item_id == j)) [
          | inl this ↦
              let e : body.item_id ≡ j = (eq_iff body.item_id j).0 this in
              let found_j : item_of j db.items ≡ some i = rw e at found in
              rw (changed, this, found_j, added) (ground (arith, rw found_j at before))
          | inr other ↦ rw (changed, other, added) (ground (arith, before))
        ];
    unique = λ j.
        let added =
          count_where-append (is_loan j) db.loans
            (new_loan env tenant_id id body borrower_id ∷ []) in
        rw added (ground (arith, eq_iff id j, h.unique j, fresh, same_count id j db.loans));
  }

  take_back-IsBalanced :
      (loan_id : String) (l : Loan) (db : LibraryDb)
      → IsBalanced db
      → find_first (is_loan loan_id) db.loans ≡ some l
      → l.returned ≡ false
      → IsBalanced (take_back env tenant_id loan_id l.item_id db)
  take_back-IsBalanced loan_id l db h found out = record {
    copies = λ j.
        let changed = keyed-update Item.id put_copy l.item_id j db.items (λ x. refl) in
        let before = h.copies j in
        let fewer = out-give_back loan_id j db.loans l (h.unique loan_id) found out in
        elim (Bool-cases (l.item_id == j)) [
          | inl this ↦
              let put = shelf-put (item_of j db.items) in
              let kept = copies-put (item_of j db.items) in
              rw (changed, this) (ground (arith, this, fewer, put, kept, before))
          | inr other ↦ rw (changed, other) (ground (arith, before, rw other at fewer))
        ];
    unique = λ j. rw (loan_ids-give_back loan_id j db.loans) (h.unique j);
  }

  -- A loan keeps the balance, whether it is made or refused.
  pub loan-IsBalanced :
      (id actor_id : String) (body : LoanBody) (db : LibraryDb)
      → IsBalanced db
      → count_where (is_loan id) db.loans ≡ 0
      → IsBalanced (loan env tenant_id id actor_id body db).1
  unfolding loan enter
  loan-IsBalanced id actor_id body db h fresh =
      let roles = get_user_roles env db.users actor_id in
      let asked = or_null (resolve_borrower_id roles actor_id body.borrower_id) in
      elim (Bool-cases (env.resolve tenant_id "ops.library")) [
        | inr off ↦ rw off h
        | inl on ↦ elim (Bool-cases (env.tenant_exists tenant_id)) [
          | inr absent ↦ rw (on, absent) h
          | inl present ↦ elim (Option-cases asked) [
            | inl nobody ↦ rw (on, present, nobody) h
            | inr (who, named) ↦ rw (on, present, named) (handed_out who)
          ]
        ]
      ]
    where
      handed_out :
          (who : String)
          → IsBalanced
              (hand_out env tenant_id id body
                (get_user_roles env db.users actor_id)
                actor_id
                who
                db).1
      handed_out who =
          elim (Bool-cases (
            if includes (get_user_roles env db.users actor_id) "parent"
            then not (is_linked db.links actor_id who)
            else false)) [
              | inl stranger ↦ rw stranger h
              | inr known ↦ elim (Option-cases (item_of body.item_id db.items)) [
                | inl missing ↦ rw (known, missing) h
                | inr (i, found) ↦ elim (Bool-cases (ltb i.available 1)) [
                  | inl lent ↦ rw (known, found, lent) h
                  | inr left ↦
                      rw (known, found, left)
                        (lend-IsBalanced id body who db i h fresh found (ground (arith, left)))
                ]
              ]
            ]

  pub return_loan-IsBalanced :
      (loan_id : String) (db : LibraryDb)
      → IsBalanced db
      → IsBalanced (return_loan env tenant_id loan_id db).1
  unfolding return_loan enter
  return_loan-IsBalanced loan_id db h = elim (Bool-cases (env.resolve tenant_id "ops.library")) [
    | inr off ↦ rw off h
    | inl on ↦ elim (Bool-cases (env.tenant_exists tenant_id)) [
      | inr absent ↦ rw (on, absent) h
      | inl present ↦ elim (Option-cases (find_first (is_loan loan_id) db.loans)) [
        | inl missing ↦ rw (on, present, missing) h
        | inr (l, found) ↦ elim (Bool-cases l.returned) [
          | inl before ↦ rw (on, present, found, before) h
          | inr out ↦ rw (on, present, found, out) (take_back-IsBalanced loan_id l db h found out)
        ]
      ]
    ]
  ]

  create_item-IsBalanced :
      (id title : String) (copies : Option ℤ) (db : LibraryDb)
      → IsBalanced db
      → item_of id db.items ≡ none
      → IsBalanced (create_item env tenant_id id title copies db).1
  unfolding create_item enter
  create_item-IsBalanced id title copies db h fresh =
      elim (Bool-cases (env.resolve tenant_id "ops.library")) [
        | inr off ↦ rw off h
        | inl on ↦ elim (Bool-cases (env.tenant_exists tenant_id)) [
          | inr absent ↦ rw (on, absent) h
          | inl present ↦ rw (on, present) (added-IsBalanced _ db h fresh refl)
        ]
      ]

-- The states that the service reaches from a library without items and loans, by any sequence of
-- its calls, those that are refused included. `randomToken` gives ids that no row has.
pub data Served (env : Environment) (tenant_id : String) : LibraryDb → Type 0 where
  start : (db : LibraryDb) → db.items ≡ [] → db.loans ≡ [] → Served env tenant_id db
  creates :
      {db : LibraryDb} (id title : String) (copies : Option ℤ)
      → Served env tenant_id db
      → item_of id db.items ≡ none
      → Served env tenant_id (create_item env tenant_id id title copies db).1
  loans :
      {db : LibraryDb} (id actor_id : String) (body : LoanBody)
      → Served env tenant_id db
      → count_where (is_loan id) db.loans ≡ 0
      → Served env tenant_id (loan env tenant_id id actor_id body db).1
  returns :
      {db : LibraryDb} (loan_id : String)
      → Served env tenant_id db
      → Served env tenant_id (return_loan env tenant_id loan_id db).1

-- In every state that the service reaches by creating items, lending and taking back, from a
-- library without items and loans, and with new ids for new rows: for each item the copies on the
-- shelf and those on loan together are the item's copies, and no loan's id stands twice.
pub Served-IsBalanced :
    (env : Environment) (tenant_id : String) (db : LibraryDb)
    → Served env tenant_id db
    → IsBalanced db
Served-IsBalanced env tenant_id db (start _ no_items no_loans) = record {
  copies = λ j. rw (no_items, no_loans) refl;
  unique = λ j. rw no_loans (omega arith);
}
Served-IsBalanced env tenant_id _ (creates {db} id title copies s fresh) =
    create_item-IsBalanced env tenant_id id title copies db (Served-IsBalanced env tenant_id db s)
      fresh
Served-IsBalanced env tenant_id _ (loans {db} id actor_id body s fresh) =
    loan-IsBalanced env tenant_id id actor_id body db (Served-IsBalanced env tenant_id db s) fresh
Served-IsBalanced env tenant_id _ (returns {db} loan_id s) =
    return_loan-IsBalanced env tenant_id loan_id db (Served-IsBalanced env tenant_id db s)

-- A loan that was returned before.
return_again :
    (env : Environment) (tenant_id loan_id : String) (db : LibraryDb) (l : Loan)
    → env.resolve tenant_id "ops.library" ≡ true
    → env.tenant_exists tenant_id ≡ true
    → find_first (is_loan loan_id) db.loans ≡ some l
    → l.returned ≡ true
    → return_loan env tenant_id loan_id db ≡ (ok already_returned, db)
unfolding return_loan enter
return_again env tenant_id loan_id db l on present found before =
    rw (on, present, found, before) refl

-- A loan that a call returned answers each further
-- return with `already_returned`, and nothing changes, so no copy is counted twice.
pub return_twice :
    (env : Environment) (tenant_id loan_id : String) (db : LibraryDb)
    → (return_loan env tenant_id loan_id db).0 ≡ ok returned
    → let after = (return_loan env tenant_id loan_id db).1 in
      return_loan env tenant_id loan_id after ≡ (ok already_returned, after)
unfolding return_loan enter
return_twice env tenant_id loan_id db h = elim (Bool-cases (env.resolve tenant_id "ops.library")) [
  | inr off ↦ let bad = rw off at h in cc
  | inl on ↦ elim (Bool-cases (env.tenant_exists tenant_id)) [
    | inr absent ↦ let bad = rw (on, absent) at h in cc
    | inl present ↦ elim (Option-cases (find_first (is_loan loan_id) db.loans)) [
      | inl missing ↦ let bad = rw (on, present, missing) at h in cc
      | inr (l, found) ↦ elim (Bool-cases l.returned) [
        | inl before ↦ let bad = rw (on, present, found, before) at h in cc
        | inr out ↦
            let refound =
              find_first-update_where (is_loan loan_id) (is_loan loan_id) give_back db.loans
                (λ x. refl) found (find_first-passes (is_loan loan_id) db.loans found) in
            return_again env tenant_id loan_id _ (give_back l) on present
              (rw (on, present, found, out) refound) refl
      ]
    ]
  ]
]
