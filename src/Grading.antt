-- ===== src/Grading.antt =====
-- The grading matrix of a school (web-server/src/academic/grading-matrix.service.ts and
-- web-server/src/academic/grading-matrix.defaults.ts). Scores and totals are numbers of the
-- runtime, floating point with its rounding, and what the code does with them is a parameter
-- (Numbers); the limits of bands and the weights are whole points, not negative. The stored bands are
-- the list, not its JSON.
pub mod Bands
pub mod Letters
mod Tests
use multi_academy_backend.Prelude.{
  ℕ, ◌+◌, String, Bool, true, false, not, ◌&&◌, ◌||◌, Option, none, some, List, [], ◌∷◌, ◌==◌, eqb,
  ltb, leb, if◌then◌else◌, any, find_first, sort_by, is_blank,
}
use multi_academy_backend.Http.{Action, Result, ok, err, bad_request}
use multi_academy_backend.Http.Checked.{◌>>◌, refuse, enabled, tenant_found, checked}
use multi_academy_backend.Tenant.{Environment}

pub record Band : Type 0 where
  pub grade_title : String
  pub grade_name : String
  pub min : ℕ
  pub max : ℕ

pub record Matrix : Type 0 where
  pub ca_weight : ℕ
  pub exam_weight : ℕ
  pub grade_bands : List Band

-- The table has one row, or none yet.
pub record GradingDb : Type 0 where
  pub matrix : Option Matrix

pub record MatrixBody : Type 0 where
  pub ca_weight : ℕ
  pub exam_weight : ℕ
  pub grade_bands : Option (List Band)

-- The numbers of the runtime, with the operations that a total takes: whole numbers, `+`, `*`, `/`,
-- `Math.round` and `<=`.
pub record Numbers : Type 1 where
  pub Number : Type 0
  pub of_nat : ℕ → Number
  pub add : Number → Number → Number
  pub mul : Number → Number → Number
  pub div : Number → Number → Number
  pub round : Number → Number
  pub at_most : Number → Number → Bool

pub record Total (Number : Type 0) : Type 0 where
  pub total : Option Number
  pub grade : Option String

abbrev pub band : String → String → ℕ → ℕ → Band
band title name min max = record { grade_title = title; grade_name = name; min = min; max = max }

abbrev pub default_grade_bands : List Band
default_grade_bands =
    band "A" "Distinction" 70 100
    ∷ band "B" "Very Good" 60 69
    ∷ band "C" "Credit" 50 59
    ∷ band "D" "Poor" 40 49
    ∷ band "E" "Very Poor" 30 39
    ∷ band "F" "Failed" 20 29
    ∷ []

abbrev pub default_matrix : Matrix
default_matrix = record { ca_weight = 40; exam_weight = 60; grade_bands = default_grade_bands }

abbrev pub is_empty : List Band → Bool
is_empty [] = true
is_empty (b ∷ bands) = false

abbrev pub bad_range : Band → Bool
bad_range b = ltb 100 b.max || ltb b.max b.min

-- `new Set(mins).size !== mins.length`.
abbrev pub repeats_min : List Band → Bool
repeats_min [] = false
repeats_min (b ∷ bands) = any (λ c. eqb c.min b.min) bands || repeats_min bands

abbrev pub unnamed : Band → Bool
unnamed b = is_blank b.grade_title || is_blank b.grade_name

-- The loop over neighbours of the sorted bands.
abbrev pub overlaps_from : Band → List Band → Bool
overlaps_from b [] = false
overlaps_from b (c ∷ bands) = leb c.min b.max || overlaps_from c bands

abbrev pub overlaps : List Band → Bool
overlaps [] = false
overlaps (b ∷ bands) = overlaps_from b bands

abbrev pub by_min : List Band → List Band
by_min = sort_by (λ a b. leb a.min b.min)

unfoldable pub validate_grading_bands : List Band → Result (Unit {0})
validate_grading_bands bands = do
  refuse (is_empty bands) (bad_request "At least one grading band is required")
  refuse (any bad_range bands) (bad_request "Grade band ranges must be between 0 and 100")
  refuse (repeats_min bands) (bad_request "Grade band minimums must be unique")
  refuse (any unnamed bands) (bad_request "Every grading band needs a title and name")
  refuse (overlaps (by_min bands)) (bad_request "Grade band ranges must not overlap")
  ok tt

abbrev pub bands_of : Option Matrix → List Band
bands_of none = default_grade_bands
bands_of (some m) = m.grade_bands

-- `body.gradeBands ?? …`.
abbrev pub new_bands : Option (List Band) → Option Matrix → List Band
new_bands none stored = bands_of stored
new_bands (some bands) stored = bands

-- `find(…'F')?.grade_title || null`.
abbrev pub title_or_null : Option Band → Option String
title_or_null none = none
title_or_null (some b) = if b.grade_title == "" then none else some b.grade_title

abbrev pub failing : List Band → Option String
failing bands = title_or_null (find_first (λ b. b.grade_title == "F") bands)

abbrev pub matrix_or_default : Option Matrix → Matrix
matrix_or_default none = default_matrix
matrix_or_default (some m) = m

module _ (n : Numbers) where
  -- `score >= band.min && score <= band.max`.
  abbrev pub in_band : n.Number → Band → Bool
  in_band score b = n.at_most (n.of_nat b.min) score && n.at_most score (n.of_nat b.max)

  -- `letter`.
  abbrev pub first_in : n.Number → List Band → Option String → Option String
  first_in score [] otherwise = otherwise
  first_in score (b ∷ bands) otherwise =
      if in_band score b then some b.grade_title else first_in score bands otherwise

  abbrev pub letter : n.Number → List Band → Option String
  letter score bands = first_in score bands (failing bands)

  abbrev pub share : n.Number → ℕ → n.Number
  share score weight = n.div (n.mul score (n.of_nat weight)) (n.of_nat 100)

  abbrev pub weighted : Matrix → n.Number → n.Number → n.Number
  weighted m ca exam = n.add (share ca m.ca_weight) (share exam m.exam_weight)

  -- `Math.round(total * 100) / 100`.
  abbrev pub to_hundredths : n.Number → n.Number
  to_hundredths total = n.div (n.round (n.mul total (n.of_nat 100))) (n.of_nat 100)

  abbrev pub plain_total : Option n.Number → Option n.Number → Option n.Number
  plain_total (some ca) (some exam) = some (n.add ca exam)
  plain_total none exam = none
  plain_total (some ca) none = none

  abbrev pub plain : Option n.Number → Total n.Number
  plain none = record { total = none; grade = none }
  plain (some t) = record { total = some t; grade = letter t default_grade_bands }

  abbrev pub by_matrix : Matrix → Option n.Number → Option n.Number → Total n.Number
  by_matrix m (some ca) (some exam) = record {
    total = some (to_hundredths (weighted m ca exam));
    grade = letter (weighted m ca exam) m.grade_bands;
  }
  by_matrix m none exam = plain none
  by_matrix m (some ca) none = plain none

module _ (env : Environment) (tenant_id : String) where
  -- `get`, as it reads the table; a list cache may stand before it.
  unfoldable pub get : GradingDb → Result Matrix
  get db = do
    enabled env tenant_id "academic.grading_matrix"
    tenant_found env tenant_id
    ok (matrix_or_default db.matrix)

  abbrev pub matrix_of : MatrixBody → GradingDb → Matrix
  matrix_of body db = record {
    ca_weight = body.ca_weight;
    exam_weight = body.exam_weight;
    grade_bands = new_bands body.grade_bands db.matrix;
  }

  unfoldable pub may_set : MatrixBody → GradingDb → Result Matrix
  may_set body db = do
    enabled env tenant_id "academic.grading_matrix"
    refuse
        (ltb 100 body.ca_weight
          || ltb 100 body.exam_weight
          || not (eqb (body.ca_weight + body.exam_weight) 100))
        (bad_request "caWeight + examWeight must equal 100")
    tenant_found env tenant_id
    validate_grading_bands (new_bands body.grade_bands db.matrix)
    ok (matrix_of body db)

  -- The answer is the matrix, read again.
  unfoldable pub set : MatrixBody → Action GradingDb Matrix
  set body = checked (may_set body) (λ m. m) (λ m _. record { matrix = some m })

  abbrev pub matrix_read : Result Matrix → Matrix
  matrix_read (ok m) = m
  matrix_read (err e) = default_matrix

  -- `computeTotal`: an unreadable matrix is the default one.
  unfoldable pub compute_total :
      (n : Numbers) → Option n.Number → Option n.Number → GradingDb → Total n.Number
  compute_total n ca exam db =
      if env.resolve tenant_id "academic.grading_matrix"
      then by_matrix n (matrix_read (get db)) ca exam
      else plain n (plain_total n ca exam)
