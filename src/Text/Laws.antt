-- ===== src/Text/Laws.antt =====
-- Texts that are written and read again: numbers in a base, and the bytes of `poke` and `peek`.
use native.Mathlib.Nat.{pow-suc}
use qedl_rs.Prelude.{
  ℕ, zero, suc, ◌+◌, ◌*◌, ◌/◌, ◌%◌, ◌^◌, ◌<◌, ◌≡◌, refl, sym, ap, ◌∙◌, false, some, [], ◌∷◌, arith,
  ltb, ◌==◌, Bool-cases, inl, inr, ltb→lt, lt→ltb,
}
use qedl_rs.Text.{Text}
use qedl_rs.Text.Number.{
  digit_char, digits_loop, decimal, digit_value, parse_loop, parse_some, parse_radix,
}

-- The digits below ten, in base ten.
digit_value-digit_char : (d : ℕ) → d < 10 → digit_value 10 (digit_char 97 d) ≡ some d
unfolding digit_value digit_char
digit_value-digit_char d h = ground arith

-- A digit of a byte, in capital letters.
hex_value : (d : ℕ) → d < 16 → digit_value 16 (digit_char 65 d) ≡ some d
unfolding digit_value digit_char
hex_value d h = ground arith

parse_loop-digit :
    (base letter bound value d : ℕ) (acc : Text)
    → digit_value base (digit_char letter d) ≡ some d
    → value * base + d < bound
    → parse_loop base bound value (digit_char letter d ∷ acc)
      ≡ parse_loop base bound (value * base + d) acc
unfolding parse_loop
parse_loop-digit base letter bound value d acc digit small =
    rw digit (rw (lt→ltb (value * base + d) bound small) refl)

digit_char_not_plus : (letter d : ℕ) → 64 < letter → (digit_char letter d == 43) ≡ false
unfolding digit_char
digit_char_not_plus letter d h = ground arith

parse_radix-digit :
    (base bound letter d : ℕ) (rest : Text)
    → 64 < letter
    → parse_radix base bound (digit_char letter d ∷ rest)
      ≡ parse_loop base bound 0 (digit_char letter d ∷ rest)
unfolding parse_radix parse_some
parse_radix-digit base bound letter d rest h = rw (digit_char_not_plus letter d h) refl

-- A byte written for `poke` is read as it was.
pub parse_radix-hex_byte :
    (b : ℕ)
    → b < 256
    → parse_radix 16 256 (digit_char 65 (b / 16) ∷ digit_char 65 (b % 16) ∷ []) ≡ some b
unfolding parse_loop
parse_radix-hex_byte b h =
    parse_radix-digit 16 256 65 (b / 16) (digit_char 65 (b % 16) ∷ []) (omega arith)
    ∙ parse_loop-digit 16 65 256 0 (b / 16) (digit_char 65 (b % 16) ∷ [])
        (hex_value (b / 16) (omega (arith, h))) (omega (arith, h))
    ∙ parse_loop-digit 16 65 256 (0 * 16 + b / 16) (b % 16) [] (hex_value (b % 16) (omega arith))
        (omega (arith, h))
    ∙ ap some (omega arith)

-- Reading goes on where the digits end.
parse_loop-digits_loop :
    (fuel n bound : ℕ) (acc : Text)
    → n < 10 ^ fuel
    → n < bound
    → parse_loop 10 bound 0 (digits_loop 97 10 fuel n acc) ≡ parse_loop 10 bound n acc
unfolding digits_loop
parse_loop-digits_loop zero n bound acc h k =
    ap (λ z. parse_loop 10 bound z acc) {x = 0} {y = n} (omega (arith, h))
parse_loop-digits_loop (suc fuel) n bound acc h k = elim (Bool-cases (ltb n 10)) [
  | inl one ↦ rw one (
      parse_loop-digit 10 97 bound 0 n acc (digit_value-digit_char n (ltb→lt n 10 one))
        (omega (arith, k))
      ∙ ap (λ z. parse_loop 10 bound z acc) {x = 0 * 10 + n} {y = n} (omega arith))
  | inr more ↦ rw more (
      parse_loop-digits_loop fuel (n / 10) bound (digit_char 97 (n % 10) ∷ acc)
        (omega (arith, h, pow-suc 10 fuel)) (omega (arith, k))
      ∙ parse_loop-digit 10 97 bound (n / 10) (n % 10) acc
          (digit_value-digit_char (n % 10) (omega arith)) (omega (arith, k))
      ∙ ap (λ z. parse_loop 10 bound z acc) {x = n / 10 * 10 + n % 10} {y = n} (omega arith))
]

digits_loop_head :
    (fuel n d : ℕ) (acc : Text)
    → (d' : ℕ) × (rest : Text) × (digits_loop 97 10 fuel n (digit_char 97 d ∷ acc)
        ≡ digit_char 97 d' ∷ rest)
unfolding digits_loop
digits_loop_head zero n d acc = (d, acc, refl)
digits_loop_head (suc fuel) n d acc = elim (Bool-cases (ltb n 10)) [
  | inl one ↦ (n, digit_char 97 d ∷ acc, rw one refl)
  | inr more ↦
      let (d', rest, same) = digits_loop_head fuel (n / 10) (n % 10) (digit_char 97 d ∷ acc) in
      (d', rest, rw more same)
]

decimal_head : (n : ℕ) → (d : ℕ) × (rest : Text) × (decimal n ≡ digit_char 97 d ∷ rest)
unfolding decimal digits_loop
decimal_head n = elim (Bool-cases (ltb n 10)) [
  | inl one ↦ (n, [], rw one refl)
  | inr more ↦
      let (d', rest, same) = digits_loop_head 19 (n / 10) (n % 10) [] in (d', rest, rw more same)
]

-- A number of 64 bits that is written in decimal, as the commands do, and read with a bound above
-- it, as the attributes of the answers are, is the same number.
pub parse_radix-decimal :
    (bound n : ℕ) → n < 2 ^ 64 → n < bound → parse_radix 10 bound (decimal n) ≡ some n
unfolding decimal parse_loop
parse_radix-decimal bound n h k =
    let (d, rest, head) = decimal_head n in
    ap (parse_radix 10 bound) head
    ∙ parse_radix-digit 10 bound 97 d rest (omega arith)
    ∙ ap (parse_loop 10 bound 0) (sym head)
    ∙ parse_loop-digits_loop 20 n bound [] (omega (arith, h)) k
