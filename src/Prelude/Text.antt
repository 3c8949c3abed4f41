-- ===== src/Prelude/Text.antt =====
-- Texts as the code takes them apart: trimming, splitting at a character, optional fields.
use Prim.Native.Nat.{ℕ}
use Prim.Native.Char.{code}
use Prim.Native.String.{String, compare}
use Prim.Native.String
use mathlib.Core.Bool.{Bool, false, not, ◌&&◌, ◌||◌}
use mathlib.Core.Option.{Option, none, some}
use mathlib.Core.List.{List, [], ◌∷◌}
use text.Mathlib.Text.{is_lt, is_le}
use multi_academy_backend.Prelude.Tests.{◌==◌, eqb, leb, if◌then◌else◌}
use multi_academy_backend.Prelude.Lists.{filter_by}

-- `a < b` and `a <= b` on texts. The order is by code points; the code compares dates and names.
abbrev pub text_lt : String → String → Bool
text_lt a b = is_lt (compare a b)

abbrev pub text_le : String → String → Bool
text_le a b = is_le (compare a b)

-- White space and line ends, as `trim` strips them.
unfoldable pub is_space : ℕ → Bool
is_space c =
    (leb 9 c && leb c 13)
    || (eqb c 0x20 || eqb c 0xa0 || eqb c 0x1680)
    || (leb 0x2000 c && leb c 0x200a)
    || (eqb c 0x2028 || eqb c 0x2029 || eqb c 0x202f || eqb c 0x205f)
    || (eqb c 0x3000 || eqb c 0xfeff)

trim_start : String → String
unfolding is_space
trim_start String.[] = ""
trim_start (String.◌∷◌ c s) = if is_space (code c) then trim_start s else String.◌∷◌ c s

trim_end : String → String
unfolding is_space
trim_end String.[] = ""
trim_end (String.◌∷◌ c s) =
    let rest = trim_end s in if rest == "" && is_space (code c) then "" else String.◌∷◌ c rest

-- `s.trim()`.
unfoldable pub trim : String → String
unfolding trim_start trim_end
trim s = trim_end (trim_start s)

-- `!s?.trim()`.
abbrev pub is_blank : String → Bool
is_blank s = trim s == ""

split_from : ℕ → String → String → List String
split_from sep cur String.[] = cur ∷ []
split_from sep cur (String.◌∷◌ c s) =
    let closed = cur ∷ split_from sep "" s in
    let longer = split_from sep (String.◌++◌ cur (String.◌∷◌ c "")) s in
    if eqb (code c) sep then closed else longer

-- `s.split(sep)` at one character.
unfoldable pub split : ℕ → String → List String
unfolding split_from
split sep s = split_from sep "" s

-- An optional text of a request body: is it given and not empty?
abbrev pub truthy : Option String → Bool
truthy none = false
truthy (some s) = not (s == "")

-- `x || null`.
abbrev pub or_null : Option String → Option String
or_null none = none
or_null (some s) = if s == "" then none else some s

-- `x || d`.
abbrev pub or_default : Option String → String → String
or_default none d = d
or_default (some s) d = if s == "" then d else s

-- `x.filter(Boolean)`.
abbrev pub non_empty : List String → List String
non_empty = filter_by (λ s. not (s == ""))
