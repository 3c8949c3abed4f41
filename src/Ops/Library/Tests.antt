-- ===== src/Ops/Library/Tests.antt =====
-- Runs of the library service on a small database.
use multi_academy_backend.Prelude.{◌≡◌, refl, none, some, [], ◌∷◌}
use multi_academy_backend.Http.{ok, err, not_found}
use multi_academy_backend.Prelude.Int.{pos}
use multi_academy_backend.Tenant.{open_school, array, enter, get_user_roles, is_linked}
use multi_academy_backend.Ops.Library.{LibraryDb, LoanBody, create_item, loan, return_loan}
use multi_academy_backend.Ops.Library.Balance.{
  start, creates, loans, returns, Served-IsBalanced, IsBalanced,
}

abbrev empty_library : LibraryDb
empty_library = record {
  users = record { id = "ada"; roles = array ("student" ∷ []) } ∷ [];
  links = [];
  items = [];
  loans = [];
}

abbrev for_ada : LoanBody
for_ada = record { item_id = "i1"; borrower_id = some "bola"; due_at = none }

abbrev with_item : LibraryDb
with_item = (create_item open_school "t1" "i1" "Things Fall Apart" (some (pos 1)) empty_library).1

abbrev lent : LibraryDb
lent = (loan open_school "t1" "l1" "ada" for_ada with_item).1

-- A student borrows for herself, whoever she asks for.
loan_run : (loan open_school "t1" "l1" "ada" for_ada with_item).0 ≡ ok ("l1", "ada")
unfolding create_item loan enter get_user_roles is_linked
loan_run = refl

second_run :
    (loan open_school "t1" "l2" "ada" for_ada lent).0 ≡ err (not_found "No copies available")
unfolding create_item loan enter get_user_roles is_linked
second_run = refl

Served-IsBalanced_example : IsBalanced (return_loan open_school "t1" "l1" lent).1
unfolding create_item loan enter
Served-IsBalanced_example =
    Served-IsBalanced open_school "t1" (return_loan open_school "t1" "l1" lent).1 (
      returns "l1" (
        loans "l1" "ada" for_ada
          (creates "i1" "Things Fall Apart" (some (pos 1)) (start empty_library refl refl) refl)
          refl))
