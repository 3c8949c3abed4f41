-- ===== src/Grading/Tests.antt =====
-- Runs of the grading matrix, over exact numbers with four places: the score 695000 is 69.5 points.
use multi_academy_backend.Prelude.{
  ℕ, ◌+◌, ◌*◌, ◌/◌, leb, ◌≡◌, refl, false, none, some, [], ◌∷◌, trim, arith,
}
use multi_academy_backend.Http.{err, bad_request}
use multi_academy_backend.Http.Checked.{checked, ◌>>◌, refuse, require, enabled, tenant_found}
use multi_academy_backend.Tenant.{Environment, open_school}
use multi_academy_backend.Grading.{
  Numbers, GradingDb, MatrixBody, band, validate_grading_bands, may_set, set, compute_total,
}
use multi_academy_backend.Grading.Bands.{IsOrdered}
use multi_academy_backend.Grading.Letters.{IsGrading, set-IsGrading}

-- Numbers with four places that are not negative; no result here needs more.
abbrev places : Numbers
places = record {
  Number = ℕ;
  of_nat = λ a. a * 10000;
  add = λ x y. x + y;
  mul = λ x y. x * y / 10000;
  div = λ x y. x * 10000 / y;
  round = λ x. (x + 5000) / 10000 * 10000;
  at_most = leb;
}

places-IsOrdered : IsOrdered places
places-IsOrdered = record { trans = λ x y z h k. ground arith; whole = λ a b h. ground arith }

abbrev empty : GradingDb
empty = record { matrix = none }

abbrev half : MatrixBody
half = record { ca_weight = 50; exam_weight = 50; grade_bands = none }

abbrev set_half : GradingDb
set_half = (set open_school "t1" half empty).1

abbrev plain_school : Environment
plain_school = record open_school { resolve = λ _ _. false }

validate_run :
    validate_grading_bands (band "P" "Pass" 40 100 ∷ band "F" "Fail" 0 40 ∷ [])
    ≡ err (bad_request "Grade band ranges must not overlap")
unfolding validate_grading_bands ◌>>◌ refuse trim
validate_run = refl

set_run :
    (set open_school "t1" (record half { ca_weight = 60 }) empty).0
    ≡ err (bad_request "caWeight + examWeight must equal 100")
unfolding set may_set checked ◌>>◌ refuse require enabled tenant_found
set_run = refl

-- 69.5 points of 100 lie between two bands.
between_run :
    (compute_total plain_school "t1" places (some 300000) (some 395000) empty).grade ≡ some "F"
unfolding compute_total
between_run = refl

empty-IsGrading : IsGrading places empty
empty-IsGrading m e = cc

set-IsGrading_example : IsGrading places set_half
set-IsGrading_example =
    set-IsGrading places places-IsOrdered open_school "t1" half empty empty-IsGrading
