-- ===== src/Grading/Bands.antt =====
-- Bands of grades (`set`, `validateGradingBands` and `letter` of
-- web-server/src/academic/grading-matrix.service.ts).
use multi_academy_backend.Prelude.{
  ℕ, ◌≤◌, ◌<◌, ◌&&◌, String, ◌≡◌, refl, sym, ◌∙◌, ◌⊎◌, inl, inr, Bool, true, false, Option, some,
  List, [], ◌∷◌, arith, any, In, All, All-mono, Bool-cases, sort_by, insert_by, All-sort_by,
}
use multi_academy_backend.Prelude.Pairwise.{Pairwise, any-All}
use multi_academy_backend.Http.{ok}
use multi_academy_backend.Http.Checked.{refused}
use multi_academy_backend.Grading.{
  Band, Numbers, bad_range, overlaps_from, overlaps, by_min, validate_grading_bands, in_band,
  first_in,
}

-- One band ends before the other begins.
abbrev pub Below : Band → Band → Type 0
Below a b = a.max < b.min

abbrev pub IsRange : Band → Type 0
IsRange b = (b.min ≤ b.max) × (b.max ≤ 100)

ranges : (bands : List Band) → any bad_range bands ≡ false → All IsRange bands
ranges bands h =
    All-mono _ IsRange bands (λ b e. (ground arith, ground arith)) (any-All bad_range bands h)

Below-All :
    (b c : Band) (bands : List Band)
    → Below b c
    → IsRange c
    → All (Below c) bands
    → All (Below b) bands
Below-All b c [] h r k = tt
Below-All b c (d ∷ bands) h r (first, k) = (omega (arith, h, r.0, first), Below-All b c bands h r k)

-- Neighbours that do not overlap are in order, and so any two bands.
chain :
    (b : Band) (bands : List Band)
    → All IsRange bands
    → overlaps_from b bands ≡ false
    → All (Below b) bands × Pairwise Below bands
chain b [] r h = (tt, tt)
chain b (c ∷ bands) (rc, r) h =
    let (rest, apart) = chain c bands r (ground arith) in
    let first : Below b c = ground arith in
    ((first, Below-All b c bands first rc rest), (rest, apart))

sorted_apart :
    (bands : List Band) → All IsRange bands → overlaps bands ≡ false → Pairwise Below bands
sorted_apart [] r h = tt
sorted_apart (b ∷ bands) (_, r) h = chain b bands r h

module _ {A : Type 0} (le : A → A → Bool) where
  In-insert_by : (a x : A) (xs : List A) → (x ≡ a) ⊎ In a xs → In a (insert_by le x xs)
  In-insert_by a x [] h = h
  In-insert_by a x (y ∷ ys) h = elim (Bool-cases (le x y)) [
    | inl e ↦ rw e h
    | inr e ↦ rw e (elim h [
      | inl here ↦ inr (In-insert_by a x ys (inl here))
      | inr (inl next) ↦ inl next
      | inr (inr later) ↦ inr (In-insert_by a x ys (inr later))
    ])
  ]

  In-sort_by : (a : A) (xs : List A) → In a xs → In a (sort_by le xs)
  In-sort_by a [] h = h
  In-sort_by a (x ∷ xs) (inl here) = In-insert_by a x (sort_by le xs) (inl here)
  In-sort_by a (x ∷ xs) (inr later) = In-insert_by a x (sort_by le xs) (inr (In-sort_by a xs later))

All-In : {A : Type 0} (P : A → Type 0) (xs : List A) (a : A) → All P xs → In a xs → P a
All-In P (x ∷ xs) a (p, h) (inl same) = rw (← same) p
All-In P (x ∷ xs) a (p, h) (inr later) = All-In P xs a h later
All-In P [] a h k = absurd k

-- Of two bands in a list where any two are apart, either is the other or they are apart.
either :
    (bands : List Band) (b c : Band)
    → Pairwise Below bands
    → In b bands
    → In c bands
    → (b ≡ c) ⊎ (Below b c ⊎ Below c b)
either (x ∷ bands) b c (h, k) (inl e) (inl f) = inl (sym e ∙ f)
either (x ∷ bands) b c (h, k) (inl e) (inr later) =
    inr (inl (rw (← e) (All-In (Below x) bands c h later)))
either (x ∷ bands) b c (h, k) (inr later) (inl f) =
    inr (inr (rw (← f) (All-In (Below x) bands b h later)))
either (x ∷ bands) b c (h, k) (inr i) (inr j) = either bands b c k i j
either [] b c h i j = absurd i

-- What the proofs use of the runtime's order: it is transitive, and of two whole numbers it is theirs.
-- Nothing is said of adding, multiplying, dividing and rounding.
pub record IsOrdered (n : Numbers) : Type 0 where
  pub trans :
      (x y z : n.Number) → n.at_most x y ≡ true → n.at_most y z ≡ true → n.at_most x z ≡ true
  pub whole : (a b : ℕ) → n.at_most (n.of_nat a) (n.of_nat b) ≡ true → a ≤ b

-- A score lies in one band at most.
abbrev pub HasOneBandEach : Numbers → List Band → Type 0
HasOneBandEach n bands =
    (b c : Band) (score : n.Number)
    → In b bands
    → In c bands
    → in_band n score b ≡ true
    → in_band n score c ≡ true
    → b ≡ c

module _ (n : Numbers) (ordered : IsOrdered n) where
  both_halves : (p q : Bool) → (p && q) ≡ true → (p ≡ true) × (q ≡ true)
  both_halves p q h = (ground arith, ground arith)

  crossed : (x y : ℕ) → x ≤ y → y < x → ⊥
  crossed x y h k = omega arith

  -- A score in two bands is above the start of either and below the end of the other.
  hit_both :
      (b c : Band) (score : n.Number)
      → in_band n score b ≡ true
      → in_band n score c ≡ true
      → ¬ Below b c
  hit_both b c score in_b in_c below =
      let (_, under) = both_halves _ _ in_b in
      let (over, _) = both_halves _ _ in_c in
      crossed c.min b.max (ordered.whole _ _ (ordered.trans _ score _ over under)) below

  pub valid-HasOneBandEach :
      (bands : List Band) → validate_grading_bands bands ≡ ok tt → HasOneBandEach n bands
  unfolding validate_grading_bands
  valid-HasOneBandEach bands h b c score in_b in_c hit_b hit_c =
      let (_, h1) = refused _ _ _ h in
      let (range, h2) = refused _ _ _ h1 in
      let (_, h3) = refused _ _ _ h2 in
      let (_, h4) = refused _ _ _ h3 in
      let (apart, _) = refused _ _ _ h4 in
      let sorted =
        sorted_apart (by_min bands) (All-sort_by IsRange _ bands (ranges bands range)) apart in
      elim (either (by_min bands) b c sorted (In-sort_by _ b bands in_b)
        (In-sort_by _ c bands in_c)) [
          | inl same ↦ same
          | inr (inl below) ↦ absurd (hit_both b c score hit_b hit_c below)
          | inr (inr below) ↦ absurd (hit_both c b score hit_c hit_b below)
        ]

pub first_in-hit :
    (n : Numbers) (bands : List Band) (b : Band) (score : n.Number) (otherwise : Option String)
    → ((c : Band) → In c bands → in_band n score c ≡ true → c ≡ b)
    → In b bands
    → in_band n score b ≡ true
    → first_in n score bands otherwise ≡ some b.grade_title
first_in-hit n (c ∷ bands) b score otherwise only found hit =
    elim (Bool-cases (in_band n score c)) [
      | inl e ↦ let same = only c (inl refl) e in rw (e, same) refl
      | inr e ↦ rw e (elim found [
        | inl here ↦ let bad : in_band n score c ≡ true = rw here hit in absurd (cc)
        | inr later ↦ first_in-hit n bands b score otherwise (λ d i. only d (inr i)) later hit
      ])
    ]
first_in-hit n [] b score otherwise only found hit = absurd found
