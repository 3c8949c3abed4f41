-- ===== src/Timetable/Overlap.antt =====
-- When two slots clash, and what the queries for clashes find
-- (`create` and `reschedule` of web-server/src/timetable/timetable.service.ts).
use multi_academy_backend.Prelude.{
  String, ◌≡◌, refl, ◌∙◌, inl, inr, Bool, true, false, not, ◌&&◌, ◌||◌, Option, none, some, List,
  ◌==◌, arith, All, All-mono, eq_iff, text_lt, or_null, Bool-cases,
}
use multi_academy_backend.Prelude.Pairwise.{any-All, All-always}
use multi_academy_backend.Prelude.Int.{ℤ}
use multi_academy_backend.Timetable.{
  Slot, same_day, in_window, class_taken, teaches, teacher_taken, is_slot,
}

-- The same teacher; an empty name is nobody's.
abbrev pub same_teacher : Option String → Option String → Bool
same_teacher none t = false
same_teacher (some t) none = false
same_teacher (some t) (some u) = not (t == "") && t == u

-- One class, or one teacher, in two places at once, with the times compared as texts.
abbrev pub clash : Slot → Slot → Bool
clash a b =
    (a.class_id == b.class_id || same_teacher a.teacher_id b.teacher_id)
    && same_day a.day_of_week b.day_of_week
    && text_lt a.start_time b.end_time
    && text_lt b.start_time a.end_time

abbrev pub Apart : Slot → Slot → Type 0
Apart a b = ((a.id == b.id) ≡ false) × (clash a b ≡ false)

eq_symm : (a b : String) → (a == b) ≡ (b == a)
eq_symm a b = ground (arith, eq_iff a b, eq_iff b a)

same_day_symm : (a b : ℤ) → same_day a b ≡ same_day b a
same_day_symm a b = ground arith

same_teacher_symm : (a b : Option String) → same_teacher a b ≡ same_teacher b a
same_teacher_symm none none = refl
same_teacher_symm none (some u) = refl
same_teacher_symm (some t) none = refl
same_teacher_symm (some t) (some u) =
    ground (arith, eq_iff t u, eq_iff u t, eq_iff t "", eq_iff u "")

clash_symm : (a b : Slot) → clash a b ≡ clash b a
clash_symm a b =
    rw
      (
        eq_symm a.class_id b.class_id,
        same_teacher_symm a.teacher_id b.teacher_id,
        same_day_symm a.day_of_week b.day_of_week,
      )
      (swap (b.class_id == a.class_id || same_teacher b.teacher_id a.teacher_id)
        (same_day b.day_of_week a.day_of_week) (text_lt a.start_time b.end_time)
        (text_lt b.start_time a.end_time))
  where
    swap : (p q r s : Bool) → (p && q && r && s) ≡ (p && q && s && r)
    swap p q r s = ground arith

pub Apart-symm : (a b : Slot) → Apart a b → Apart b a
Apart-symm a b (i, c) = (eq_symm b.id a.id ∙ i, clash_symm b a ∙ c)

pub one_slot :
    (slot_id : String) (a b : Slot)
    → Apart a b
    → is_slot slot_id a ≡ true
    → is_slot slot_id b ≡ false
one_slot slot_id a b h e =
    ground (arith, eq_iff a.id slot_id, eq_iff b.id slot_id, eq_iff a.id b.id)

-- What a query that finds no row says of every row.
pub class_apart :
    (admits : Slot → Bool) (slots : List Slot) (c : String) (d : ℤ) (start end : String)
    → class_taken admits slots c d start end ≡ false
    → All (λ s. (s.class_id == c && admits s && in_window d start end s) ≡ false) slots
unfolding class_taken
class_apart admits slots c d start end h = any-All _ slots h

nobody : (t : Option String) → same_teacher t none ≡ false
nobody none = refl
nobody (some t) = refl

nameless : (t : Option String) (u : String) → (u == "") ≡ true → same_teacher t (some u) ≡ false
nameless none u e = refl
nameless (some t) u e = ground (arith, eq_iff t u, eq_iff u "", eq_iff t "")

named :
    (t : Option String) (u : String) (a w : Bool)
    → (teaches t u && a && w) ≡ false
    → (same_teacher t (some u) && a && w) ≡ false
named none u a w h = refl
named (some t) u a w h = ground arith

quiet : (a b : Bool) → a ≡ false → (not a && b) ≡ false → b ≡ false
quiet a b e h = ground arith

pub teacher_apart :
    (admits : Slot → Bool) (slots : List Slot) (t : Option String) (d : ℤ) (start end : String)
    → teacher_taken admits slots t d start end ≡ false
    → All (λ s. (same_teacher s.teacher_id t && admits s && in_window d start end s) ≡ false) slots
unfolding teacher_taken
teacher_apart admits slots none d start end h =
    All-always _ slots (λ s. rw (nobody s.teacher_id) refl)
teacher_apart admits slots (some u) d start end h = elim (Bool-cases (u == "")) [
  | inl e ↦ All-always _ slots (λ s. rw (nameless s.teacher_id u e) refl)
  | inr e ↦
      All-mono _ _ slots (λ s k. named s.teacher_id u (admits s) _ k)
        (any-All _ slots (quiet _ _ e h))
]

-- A teacher's name is stored as it was asked for; none is stored for an empty one.
pub stored :
    (admits : Slot → Bool) (slots : List Slot) (t : Option String) (d : ℤ) (start end : String)
    → teacher_taken admits slots t d start end ≡ false
    → teacher_taken admits slots (or_null t) d start end ≡ false
unfolding teacher_taken
stored admits slots none d start end h = refl
stored admits slots (some u) d start end h = elim (Bool-cases (u == "")) [
  | inl e ↦ rw e refl
  | inr e ↦ rw e h
]

-- A row that neither query finds does not clash.
pub no_clash :
    (admits : Slot → Bool) (s new : Slot)
    → admits s ≡ true
    → (s.class_id == new.class_id
        && admits s
        && in_window new.day_of_week new.start_time new.end_time s)
      ≡ false
    → (same_teacher s.teacher_id new.teacher_id
        && admits s
        && in_window new.day_of_week new.start_time new.end_time s)
      ≡ false
    → clash s new ≡ false
unfolding in_window
no_clash admits s new admitted no_class no_teacher =
    (let h = rw admitted at no_class in
      let k = rw admitted at no_teacher in
      apart _ _ (same_day s.day_of_week new.day_of_week) (text_lt s.start_time new.end_time)
        (text_lt new.start_time s.end_time) h k)
  where
    apart :
        (c t p q r : Bool)
        → (c && true && (p && q && r)) ≡ false
        → (t && true && (p && q && r)) ≡ false
        → ((c || t) && p && q && r) ≡ false
    apart c t p q r h k = ground arith
