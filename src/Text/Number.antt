-- ===== src/Text/Number.antt =====
-- Numbers as texts: `format!("{}")`, `format!("{:#x}")`, `format!("{:02X}")`, `str::parse` and
-- `from_str_radix` of the standard library.
use qedl_rs.Prelude.{
  ℕ, zero, suc, ◌+◌, ◌-◌, ◌*◌, ◌/◌, ◌%◌, ◌&&◌, Option, none, some, [], ◌∷◌, ◌++◌, ltb, leb, ◌==◌,
  match_option, if◌then◌else◌,
}
use qedl_rs.Text.{Text, lit}

-- A digit in a base up to 16, `letter` the code of the digit ten.
unfoldable pub digit_char : ℕ → ℕ → ℕ
digit_char letter d = if ltb d 10 then 48 + d else letter + (d - 10)

-- At most `fuel` digits, the last ones.
unfoldable pub digits_loop : ℕ → ℕ → ℕ → ℕ → Text → Text
digits_loop letter base zero n acc = acc
digits_loop letter base (suc fuel) n acc =
    let more = digits_loop letter base fuel (n / base) (digit_char letter (n % base) ∷ acc) in
    if ltb n base then digit_char letter n ∷ acc else more

-- An integer of 64 bits has at most twenty decimal digits, and sixteen hexadecimal ones.
unfoldable pub decimal : ℕ → Text
decimal n = digits_loop 97 10 20 n []

unfoldable pub hex_lower : ℕ → Text
hex_lower n = lit "0x" ++ digits_loop 97 16 16 n []

-- `0x{:02X}` of a byte
unfoldable pub hex_byte : ℕ → Text
hex_byte b = lit "0x" ++ (digit_char 65 (b / 16) ∷ digit_char 65 (b % 16) ∷ [])

-- `char::to_digit`
unfoldable pub digit_value : ℕ → ℕ → Option ℕ
digit_value base c =
    if leb 48 c && ltb c 58
    then (if ltb (c - 48) base then some (c - 48) else none)
    else if leb 97 c && ltb c 123
    then (if ltb (c - 87) base then some (c - 87) else none)
    else if leb 65 c && ltb c 91
    then (if ltb (c - 55) base then some (c - 55) else none)
    else none

-- The digits after the sign; a number of `bound` or more is an error, as is what is no digit.
unfoldable pub parse_loop : ℕ → ℕ → ℕ → Text → Option ℕ
parse_loop base bound value [] = some value
parse_loop base bound value (c ∷ cs) = match_option (digit_value base c) none (λ d.
    let rest = parse_loop base bound (value * base + d) cs in
    if ltb (value * base + d) bound then rest else none)

-- What a number may not be: the empty text, and a sign alone.
unfoldable pub parse_some : ℕ → ℕ → Text → Option ℕ
parse_some base bound [] = none
parse_some base bound (c ∷ cs) = parse_loop base bound 0 (c ∷ cs)

-- An unsigned `from_str_radix`, which takes one sign `+`.
unfoldable pub parse_radix : ℕ → ℕ → Text → Option ℕ
parse_radix base bound [] = none
parse_radix base bound (c ∷ cs) =
    if c == 43 then parse_some base bound cs else parse_some base bound (c ∷ cs)
