-- ===== src/Common/Text.antt =====
-- Texts, their equality test, and Go's maps keyed by texts.
use Prim.Native.Nat.{ℕ}
use Prim.Native.Char.{code}
use Prim.Native.String.{String, compare}
use mathlib.Core.List.{List, [], ◌∷◌}
use mathlib.Core.Path.{◌≡◌, refl}
use mathlib.Core.Logic.{◌↔◌}
use mathlib.Core.Bool.{Bool, true}
use mathlib.Core.Option.{Option, none, some}
use text.Mathlib.Text.{◌==◌ as text_eq, is_lt}
use text.Mathlib.TextEquality.{eq_iff}
use xe6_tsy.Common.Tests.{if◌then◌else◌}

unfoldable pub str_eq : String → String → Bool
str_eq a b = text_eq a b

pub str_eq_iff : (a b : String) → (str_eq a b ≡ true) ↔ (a ≡ b)
unfolding str_eq
str_eq_iff a b = eq_iff a b

pub str_eq_refl : (a : String) → str_eq a a ≡ true
str_eq_refl a = (str_eq_iff a a).1 refl

-- a < b, by the order of the characters.
unfoldable pub str_lt : String → String → Bool
str_lt a b = is_lt (compare a b)

-- s == "".
abbrev pub is_blank : String → Bool
is_blank s = str_eq s ""

-- A Go map: `none` is a missing key.
abbrev pub Map {ℓ} : Type ℓ → Type ℓ
Map V = String → Option V

abbrev pub empty {ℓ} : {V : Type ℓ} → Map V
empty k = none

abbrev pub insert {ℓ} : {V : Type ℓ} → String → V → Map V → Map V
insert k v m j = if str_eq k j then some v else m j

abbrev pub delete {ℓ} : {V : Type ℓ} → String → Map V → Map V
delete k m j = if str_eq k j then none else m j

-- The code points of a text, where the program walks them.
abbrev pub codes : String → List ℕ
codes String.[] = []
codes (String.◌∷◌ c s) = code c ∷ codes s
