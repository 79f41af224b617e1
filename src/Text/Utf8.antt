-- ===== src/Text/Utf8.antt =====
-- `String::from_utf8_lossy` of the standard library: each maximal piece that is no UTF-8 becomes
-- the replacement character.
use qedl_rs.Prelude.{
  ℕ, zero, suc, Bool, true, false, ◌&&◌, [], ◌∷◌, ◌++◌, ltb, leb, ◌==◌, length, take, drop,
  if◌then◌else◌,
}
use qedl_rs.Prelude.Bytes.{Bytes}
use qedl_rs.Text.{Text}

abbrev between : ℕ → ℕ → ℕ → Bool
between lo hi b = leb lo b && leb b hi

abbrev is_tail : ℕ → Bool
is_tail b = between 128 191 b

-- The second byte that may follow a first byte of three or four.
second_ok : ℕ → ℕ → Bool
second_ok first b =
    if first == 224
    then between 160 191 b
    else if first == 237
    then between 128 159 b
    else if first == 240
    then between 144 191 b
    else if first == 244
    then between 128 143 b
    else is_tail b

-- The length of the first piece, and whether it is a character.
record Piece : Type 0 where
  size : ℕ
  valid : Bool

abbrev piece : ℕ → Bool → Piece
piece n b = record { size = n; valid = b }

two : Bytes → Piece
two (b ∷ bs) = piece (if is_tail b then 2 else 1) (is_tail b)
two [] = piece 1 false

three_tail : Bytes → Piece
three_tail (b ∷ bs) = piece (if is_tail b then 3 else 2) (is_tail b)
three_tail [] = piece 2 false

unfoldable three : ℕ → Bytes → Piece
unfolding second_ok three_tail
three first (b ∷ bs) = if second_ok first b then three_tail bs else piece 1 false
three first [] = piece 1 false

four_last : Bytes → Piece
four_last (b ∷ bs) = piece (if is_tail b then 4 else 3) (is_tail b)
four_last [] = piece 3 false

four_tail : Bytes → Piece
four_tail (b ∷ bs) = if is_tail b then four_last bs else piece 2 false
four_tail [] = piece 2 false

four : ℕ → Bytes → Piece
four first (b ∷ bs) = if second_ok first b then four_tail bs else piece 1 false
four first [] = piece 1 false

unfoldable first_piece : ℕ → Bytes → Piece
unfolding two three four four_tail four_last second_ok three_tail
first_piece b bs =
    if ltb b 128
    then piece 1 true
    else if between 194 223 b
    then two bs
    else if between 224 239 b
    then three b bs
    else if between 240 244 b
    then four b bs
    else piece 1 false

-- U+FFFD
abbrev replacement : Text
replacement = 239 ∷ 191 ∷ 189 ∷ []

-- On fuel: each round takes a byte at least.
unfoldable pub lossy_loop : ℕ → Bytes → Text
unfolding first_piece
lossy_loop zero bytes = []
lossy_loop (suc fuel) [] = []
lossy_loop (suc fuel) (b ∷ bs) =
    let p = first_piece b bs in
    let rest = lossy_loop fuel (drop p.size (b ∷ bs)) in
    (if p.valid then take p.size (b ∷ bs) else replacement) ++ rest

unfoldable pub from_utf8_lossy : Bytes → Text
from_utf8_lossy bytes = lossy_loop (length bytes) bytes
