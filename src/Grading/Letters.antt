-- ===== src/Grading/Letters.antt =====
-- The grade of a student's scores (`computeTotal` of
-- web-server/src/academic/grading-matrix.service.ts).
use multi_academy_backend.Prelude.{◌+◌, String, ◌≡◌, ◌∙◌, some, arith}
use multi_academy_backend.Http.Checked.{refused, passed, returned, checked-state}
use multi_academy_backend.Tenant.{Environment}
use multi_academy_backend.Grading.{Numbers, Matrix, MatrixBody, GradingDb, may_set, set}
use multi_academy_backend.Grading.Bands.{IsOrdered, HasOneBandEach, valid-HasOneBandEach}

module _ (n : Numbers) where
  -- Weights that add up to 100, and bands of which a score lies in one at most.
  abbrev pub IsMatrix : Matrix → Type 0
  IsMatrix m = (m.ca_weight + m.exam_weight ≡ 100) × HasOneBandEach n m.grade_bands

  abbrev pub IsGrading : GradingDb → Type 0
  IsGrading db = (m : Matrix) → db.matrix ≡ some m → IsMatrix m

same_matrix : {a b : Matrix} → some a ≡ some b → a ≡ b
same_matrix e = cc

module _ (n : Numbers) (ordered : IsOrdered n) (env : Environment) (tenant_id : String) where
  -- Setting the matrix, accepted or refused, keeps that the weights add up to 100 and that a score lies
  -- in one band at most; the order of the runtime's numbers is taken to be transitive and to agree
  -- with that of whole numbers.
  pub set-IsGrading :
      (body : MatrixBody) (db : GradingDb)
      → IsGrading n db
      → IsGrading n (set env tenant_id body db).1
  unfolding set may_set
  set-IsGrading body db h = checked-state (IsGrading n) _ _ _ db h λ m passes stored same.
      let (_, h1) = passed _ _ passes in
      let (weights, h2) = refused _ _ _ h1 in
      let (_, h3) = passed _ _ h2 in
      let (bands, h4) = passed _ _ h3 in
      let given = returned h4 ∙ same_matrix same in
      rw (← given) (ground (arith, weights), valid-HasOneBandEach n ordered _ bands)
