-- ===== src/Text.antt =====
-- Texts as the bytes of their UTF-8, and what the code uses of `str`: literals, `find`, `contains`.
pub mod Number
pub mod Utf8
pub mod Split
pub mod Laws
use Prim.Native.Char.{code}
use Prim.Native.String.{String}
use qedl_rs.Prelude.{
  ℕ, suc, Bool, true, false, Option, none, some, [], ◌∷◌, ◌==◌, ◌&&◌, if◌then◌else◌,
}
use qedl_rs.Prelude.Bytes.{Bytes}

abbrev pub Text : Type 0
Text = Bytes

-- A literal of the source, ASCII in all the code below.
abbrev pub lit : String → Text
lit String.[] = []
lit (String.◌∷◌ c s) = code c ∷ lit s

abbrev pub text_eq : Text → Text → Bool
text_eq [] [] = true
text_eq [] (b ∷ bs) = false
text_eq (a ∷ as') [] = false
text_eq (a ∷ as') (b ∷ bs) = a == b && text_eq as' bs

abbrev pub starts_with : Text → Text → Bool
starts_with text [] = true
starts_with [] (b ∷ bs) = false
starts_with (a ∷ as') (b ∷ bs) = a == b && starts_with as' bs

abbrev pub later : Option ℕ → Option ℕ
later none = none
later (some i) = some (suc i)

-- `str::find`, the first position of a pattern
unfoldable pub find : Text → Text → Option ℕ
find [] pat = if starts_with [] pat then some 0 else none
find (c ∷ cs) pat =
    let rest = find cs pat in if starts_with (c ∷ cs) pat then some 0 else later rest

abbrev is_some : Option ℕ → Bool
is_some none = false
is_some (some i) = true

unfoldable pub contains : Text → Text → Bool
contains text pat = is_some (find text pat)
