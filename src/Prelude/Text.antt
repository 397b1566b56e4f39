-- ===== src/Prelude/Text.antt =====
-- Python's `str` as its list of code points, where the code looks inside a string: `lower`, `strip`,
-- `in` and `split`, on the ASCII characters. A character outside ASCII is neither a capital nor white
-- space here.
use bhiv_masterdb_ingestion.Prelude.Tests.{leb, ◌==◌, if◌then◌else◌}
use Prim.Native.Nat.{ℕ, ◌+◌}
use Prim.Native.Char.{code}
use Prim.Native.String.{String}
use mathlib.Core.Path.{◌≡◌, refl}
use mathlib.Core.Bool.{Bool, true, false, ◌&&◌, ◌||◌}
use mathlib.Core.List.{List, [], ◌∷◌, map}
use native.Mathlib.Omega.{arith}

abbrev pub Text : Type 0
Text = List ℕ

-- A literal of the source.
abbrev pub codes : String → Text
codes String.[] = []
codes (String.◌∷◌ c s) = code c ∷ codes s

-- `a == b`
abbrev pub same_text : Text → Text → Bool
same_text [] [] = true
same_text [] (d ∷ b) = false
same_text (c ∷ a) [] = false
same_text (c ∷ a) (d ∷ b) = c == d && same_text a b

-- `a in xs` for a list of strings
abbrev pub elem_text : Text → List Text → Bool
elem_text a [] = false
elem_text a (b ∷ bs) = same_text a b || elem_text a bs

abbrev pub lower_code : ℕ → ℕ
lower_code c = if leb 65 c && leb c 90 then c + 32 else c

-- `s.lower()`
abbrev pub lower : Text → Text
lower s = map lower_code s

-- `c.isspace()`
abbrev pub is_space : ℕ → Bool
is_space c = leb 9 c && leb c 13 || leb 28 c && leb c 32

abbrev pub lstrip : Text → Text
lstrip [] = []
lstrip (c ∷ s) = if is_space c then lstrip s else c ∷ s

abbrev pub is_blank : Text → Bool
is_blank [] = true
is_blank (c ∷ s) = is_space c && is_blank s

abbrev pub rstrip : Text → Text
rstrip [] = []
rstrip (c ∷ s) = if is_blank (c ∷ s) then [] else c ∷ rstrip s

-- `s.strip()`
abbrev pub strip : Text → Text
strip s = rstrip (lstrip s)

-- `not s`
abbrev pub is_empty : Text → Bool
is_empty [] = true
is_empty (c ∷ s) = false

abbrev pub starts_with : Text → Text → Bool
starts_with [] s = true
starts_with (c ∷ q) [] = false
starts_with (c ∷ q) (d ∷ s) = c == d && starts_with q s

-- `q in s`
abbrev pub occurs_in : Text → Text → Bool
occurs_in q [] = is_empty q
occurs_in q (c ∷ s) = starts_with q (c ∷ s) || occurs_in q s

-- `s.split(c)[0]`, and what follows the first separator
abbrev pub before : ℕ → Text → Text
before c [] = []
before c (d ∷ s) = if d == c then [] else d ∷ before c s

abbrev pub after : ℕ → Text → Text
after c [] = []
after c (d ∷ s) = if d == c then s else after c s

pub same_text→eq : (a b : Text) → same_text a b ≡ true → a ≡ b
same_text→eq [] [] h = refl
same_text→eq [] (d ∷ b) h = cc
same_text→eq (c ∷ a) [] h = cc
same_text→eq (c ∷ a) (d ∷ b) h = ground (arith, same_text→eq a b)

pub same_text_refl : (a : Text) → same_text a a ≡ true
same_text_refl [] = refl
same_text_refl (c ∷ a) = ground (arith, same_text_refl a)

-- An empty string that is stripped is one of white space.
pub strip-is_empty : (s : Text) → is_empty (strip s) ≡ is_blank s
strip-is_empty [] = refl
strip-is_empty (c ∷ s) = ground (arith, strip-is_empty s)

pub same_text_sym : (a b : Text) → same_text a b ≡ same_text b a
same_text_sym [] [] = refl
same_text_sym [] (d ∷ b) = refl
same_text_sym (c ∷ a) [] = refl
same_text_sym (c ∷ a) (d ∷ b) = ground (arith, same_text_sym a b)
