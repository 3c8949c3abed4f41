-- ===== src/Ops/Library.antt =====
-- The library of a school (web-server/src/library/library.service.ts). Titles, authors and dates
-- of a row stand for themselves and are left out where no decision reads them; ids that
-- `randomToken` makes are arguments. `available` is a natural number: the only subtraction is
-- guarded.
pub mod Balance
mod Tests
use multi_academy_backend.Prelude.{
  ℕ, zero, suc, ◌+◌, ◌-◌, String, Bool, true, false, not, Option, none, some, List, [], ◌∷◌, ◌++◌,
  ◌==◌, ltb, if◌then◌else◌, any, includes, filter_by, find_first, update_where, count_where,
  or_null, truthy,
}
use multi_academy_backend.Prelude.Int.{ℤ, pos, negsuc}
use multi_academy_backend.Http.{
  Action, not_found, pure, gets, or_throw, throw_if, modify, when_so, ◌>>=◌, ◌>>◌,
}
use multi_academy_backend.Tenant.{Environment, User, ParentLink, get_user_roles, is_linked, enter}

-- A row of `library_items`.
pub record Item : Type 0 where
  pub id : String
  pub title : String
  pub copies : ℕ
  pub available : ℕ

-- A row of `library_loans`; `returned` says whether `returned_at` is set.
pub record Loan : Type 0 where
  pub id : String
  pub item_id : String
  pub borrower_id : String
  pub due_at : Option String
  pub returned : Bool

pub record LibraryDb : Type 0 where
  pub users : List User
  pub links : List ParentLink
  pub items : List Item
  pub loans : List Loan

abbrev pub is_item : String → Item → Bool
is_item id i = i.id == id

abbrev pub is_loan : String → Loan → Bool
is_loan id l = l.id == id

-- `Math.max(1, body.copies || 1)`.
abbrev pub copies_or_one : Option ℤ → ℕ
copies_or_one none = 1
copies_or_one (some (negsuc n)) = 1
copies_or_one (some (pos zero)) = 1
copies_or_one (some (pos (suc n))) = suc n

abbrev pub resolve_borrower_id : List String → String → Option String → Option String
resolve_borrower_id roles actor_id requested_id =
    if includes roles "student" then some actor_id else requested_id

abbrev pub take_copy : Item → Item
take_copy i = record i { available = i.available - 1 }

abbrev pub put_copy : Item → Item
put_copy i = record i { available = i.available + 1 }

abbrev pub give_back : Loan → Loan
give_back l = record l { returned = true }

pub record LoanBody : Type 0 where
  pub item_id : String
  pub borrower_id : Option String
  pub due_at : Option String

-- What `returnLoan` answers.
pub data Return : Type 0 where
  returned already_returned : Return

-- The optional `status` of `listLoans`.
pub data LoanStatus : Type 0 where
  all_loans open_loans returned_loans : LoanStatus

abbrev pub has_status : LoanStatus → Loan → Bool
has_status all_loans l = true
has_status open_loans l = not l.returned
has_status returned_loans l = l.returned

-- The scope of `listLoans`: a student's own loans, a parent's children's, or all.
abbrev pub in_scope : List ParentLink → List String → String → Loan → Bool
in_scope links roles actor_id l =
    if includes roles "student"
    then l.borrower_id == actor_id
    else if includes roles "parent"
    then is_linked links actor_id l.borrower_id
    else true

module _ (env : Environment) (tenant_id : String) where
  -- The rows without their order and the page of 200.
  unfoldable pub list_loans : String → LoanStatus → Action LibraryDb (List Loan)
  list_loans actor_id status = do
    enter env tenant_id "ops.library"
    roles ← gets (λ db. get_user_roles env db.users actor_id)
    gets (λ db.
        filter_by (in_scope db.links roles actor_id) (filter_by (has_status status) db.loans))

  unfoldable pub create_item : String → String → Option ℤ → Action LibraryDb Item
  create_item id title copies = do
    enter env tenant_id "ops.library"
    modify (λ db. record db {
      items =
          db.items
          ++ record {
            id = id;
            title = title;
            copies = copies_or_one copies;
            available = copies_or_one copies;
          }
            ∷ [];
    })
    pure (record {
      id = id;
      title = title;
      copies = copies_or_one copies;
      available = copies_or_one copies;
    })

  abbrev pub new_loan : String → LoanBody → String → Loan
  new_loan id body borrower_id = record {
    id = id;
    item_id = body.item_id;
    borrower_id = borrower_id;
    due_at = or_null body.due_at;
    returned = false;
  }

  abbrev pub lend : String → LoanBody → String → LibraryDb → LibraryDb
  lend id body borrower_id db = record db {
    loans = db.loans ++ new_loan id body borrower_id ∷ [];
    items = update_where (is_item body.item_id) take_copy db.items;
  }

  -- `loan`, once the borrower is known.
  abbrev pub hand_out :
      String → LoanBody → List String → String → String → Action LibraryDb (String × String)
  hand_out id body roles actor_id borrower_id = do
    linked ← gets (λ db. is_linked db.links actor_id borrower_id)
    throw_if (if includes roles "parent" then not linked else false)
        (not_found "Borrower is not linked to this parent")
    found ← gets (λ db. find_first (is_item body.item_id) db.items)
    item ← or_throw found (not_found "Item not found")
    throw_if (ltb item.available 1) (not_found "No copies available")
    modify (lend id body borrower_id)
    pure (id, borrower_id)

  -- The id of the loan and its borrower.
  unfoldable pub loan : String → String → LoanBody → Action LibraryDb (String × String)
  loan id actor_id body = do
    enter env tenant_id "ops.library"
    roles ← gets (λ db. get_user_roles env db.users actor_id)
    borrower_id ←
        or_throw (or_null (resolve_borrower_id roles actor_id body.borrower_id))
          (not_found "Borrower is required")
    hand_out id body roles actor_id borrower_id

  abbrev pub take_back : String → String → LibraryDb → LibraryDb
  take_back loan_id item_id db = record db {
    loans = update_where (is_loan loan_id) give_back db.loans;
    items = update_where (is_item item_id) put_copy db.items;
  }

  unfoldable pub return_loan : String → Action LibraryDb Return
  return_loan loan_id = do
    enter env tenant_id "ops.library"
    found ← gets (λ db. find_first (is_loan loan_id) db.loans)
    l ← or_throw found (not_found "Loan not found")
    if l.returned
        then pure already_returned
        else (modify (take_back loan_id l.item_id) >> pure returned)
