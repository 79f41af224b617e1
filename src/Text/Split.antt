-- ===== src/Text/Split.antt =====
-- `split_whitespace` of the standard library, on the UTF-8 of a text.
use qedl_rs.Prelude.{
  ℕ, zero, suc, ◌-◌, Bool, ◌&&◌, ◌||◌, List, [], ◌∷◌, ◌++◌, ltb, leb, ◌==◌, if◌then◌else◌,
}
use qedl_rs.Text.{Text}

abbrev one_of_two : ℕ → ℕ → Bool
one_of_two a b = a == 194 && (b == 133 || b == 160)

-- U+1680, U+2000 to U+200A, U+2028, U+2029, U+202F, U+205F, U+3000
abbrev one_of_three : ℕ → ℕ → ℕ → Bool
one_of_three a b c =
    (a == 225 && (b == 154 && c == 128))
    || (a == 226
        && ((b == 128 && ((leb 128 c && leb c 138) || (c == 168 || (c == 169 || c == 175))))
            || (b == 129 && c == 159)))
    || (a == 227 && (b == 128 && c == 128))

abbrev one_byte : ℕ → Bool
one_byte a = (leb 9 a && leb a 13) || a == 32

-- The bytes of the whitespace character that begins the text, 0 if none does.
unfoldable pub space_width : Text → ℕ
space_width [] = 0
space_width (a ∷ []) = if one_byte a then 1 else 0
space_width (a ∷ b ∷ []) = if one_byte a then 1 else if one_of_two a b then 2 else 0
space_width (a ∷ b ∷ c ∷ rest) =
    if one_byte a then 1 else if one_of_two a b then 2 else if one_of_three a b c then 3 else 0

abbrev pub end_word : Text → List Text → List Text
end_word [] words = words
end_word (c ∷ cs) words = (c ∷ cs) ∷ words

-- `skip` bytes are left of a space; `word` is what stands before the position.
unfoldable pub words_loop : ℕ → Text → Text → List Text
words_loop skip word [] = end_word word []
words_loop (suc skip) word (c ∷ cs) = words_loop skip word cs
words_loop zero word (c ∷ cs) =
    let width = space_width (c ∷ cs) in
    let space = ltb 0 width in
    let rest = words_loop (width - 1) (if space then [] else word ++ (c ∷ [])) cs in
    if space then end_word word rest else rest

unfoldable pub split_whitespace : Text → List Text
split_whitespace text = words_loop 0 [] text
