-- ===== src/Ops/Gate/Tests.antt =====
-- Runs of the gate service on a small database.
use multi_academy_backend.Prelude.{ℕ, ◌≡◌, ◌≢◌, ◌≤◌, refl, false, none, some, [], ◌∷◌, find_first}
use multi_academy_backend.Prelude.Int.{pos}
use multi_academy_backend.Http.{ok}
use multi_academy_backend.Tenant.{
  open_school, array, enter, load_user_roles, is_linked, parse_role_list,
}
use multi_academy_backend.Ops.Gate.{
  GateDb, Token, issue_token, redeem, token, redeemed, already_used, expired, has_code,
}
use multi_academy_backend.Ops.Gate.Redemption.{Served, redeem_once}

abbrev gate : GateDb
gate = record {
  users = record { id = "gus"; roles = array ("guard" ∷ []) } ∷ [];
  links = record { parent_id = "mum"; student_id = "ada" } ∷ [];
  tokens = [];
  notices = [];
}

abbrev issued : GateDb
issued =
    (issue_token open_school "t1" "g1" "123456" 1000 "mum"
      (record { student_id = "ada"; guardian_name = none; hours = some (pos 1) }) gate).1

abbrev opened : GateDb
opened = (redeem open_school "t1" {Pass = ℕ} none 2000 "gus" "123456" issued).1

redeem_late :
    (redeem open_school "t1" {Pass = ℕ} none 3602000 "gus" "123456" issued).0
    ≡ ok (token "g1" "ada" expired)
unfolding issue_token redeem enter load_user_roles parse_role_list is_linked
redeem_late = refl

redeem_again :
    (redeem open_school "t1" {Pass = ℕ} none 2001 "gus" "123456" opened).0
    ≡ ok (token "g1" "ada" already_used)
unfolding issue_token redeem enter load_user_roles parse_role_list is_linked
redeem_again = refl

-- After the redemption another token is issued under the same code, and the code is presented again.
abbrev reissued : GateDb
reissued =
    (issue_token open_school "t1" "g2" "123456" 2001 "mum"
      (record { student_id = "ada"; guardian_name = none; hours = none }) opened).1

redeem_once_example :
    ((t : Token) × (find_first (has_code "123456") issued.tokens ≡ some t)
      × (t.used ≡ false)
      × (2000 ≤ t.valid_until)
      × (t.student_id ≡ "ada"))
    × ((redeem open_school "t1" {Pass = ℕ} none 2002 "gus" "123456" reissued).0
        ≢ ok (token "g2" "ada" redeemed))
unfolding issue_token redeem enter load_user_roles parse_role_list is_linked
redeem_once_example =
    redeem_once "t1" ℕ open_school open_school none none 2000 2002 "gus" "gus" "123456" issued "g1"
      "ada" "g2" "ada" refl
      (Served.issued open_school "g2" "123456" 2001 "mum"
        (record { student_id = "ada"; guardian_name = none; hours = none }) Served.none_yet)
