-- ===== src/Image/Patch/Laws.antt =====
-- qedl-image/src/patch.rs: what a value with the name of a variable comes to.
use mathlib.Core.Path.{subst}
use qedl_rs.Prelude.{
  ℕ, ◌^◌, ◌<◌, ◌≤◌, ◌≡◌, refl, ◌||◌, false, Option, some, [], ◌∷◌, ◌++◌, ◌==◌, ==_iff, le→leb,
  Bool-cases, inl, inr, ok, take,
}
use qedl_rs.Prelude.Bytes.{to_le_bytes}
use qedl_rs.Text.{Text, lit, starts_with}
use qedl_rs.Text.Number.{decimal, parse_radix, parse_some, parse_loop, digit_value}
use qedl_rs.Text.Laws.{parse_radix-decimal}
use qedl_rs.Image.Patch.{PatchEntry, resolved, patch_number, resolve_value}

lower_hex_not_decimal :
    (text : Text) (n : ℕ) → parse_radix 10 (2 ^ 64) (48 ∷ 120 ∷ text) ≡ some n → ⊥
unfolding parse_radix parse_some parse_loop digit_value
lower_hex_not_decimal text n h = cc h

upper_hex_not_decimal :
    (text : Text) (n : ℕ) → parse_radix 10 (2 ^ 64) (48 ∷ 88 ∷ text) ≡ some n → ⊥
unfolding parse_radix parse_some parse_loop digit_value
upper_hex_not_decimal text n h = cc h

-- A text that is read in base ten has no prefix of base sixteen.
decimal_no_prefix :
    (text : Text) (n : ℕ)
    → parse_radix 10 (2 ^ 64) text ≡ some n
    → (starts_with text (lit "0x") || starts_with text (lit "0X")) ≡ false
decimal_no_prefix [] n h = refl
decimal_no_prefix (c ∷ []) n h = elim (Bool-cases (c == 48)) [
  | inl zero_digit ↦ rw zero_digit refl
  | inr other ↦ rw other refl
]
decimal_no_prefix (c ∷ d ∷ text) n h = elim (Bool-cases (c == 48)) [
  | inr other ↦ rw other refl
  | inl zero_digit ↦
      let at_zero =
        subst (λ z. parse_radix 10 (2 ^ 64) (z ∷ d ∷ text) ≡ some n) ((==_iff c 48).0 zero_digit)
          h in
      elim (Bool-cases (d == 120)) [
        | inl lower_x ↦ absurd (
            lower_hex_not_decimal text n (
              subst (λ z. parse_radix 10 (2 ^ 64) (48 ∷ z ∷ text) ≡ some n)
                ((==_iff d 120).0 lower_x) at_zero))
        | inr not_lower ↦ elim (Bool-cases (d == 88)) [
          | inl upper_x ↦ absurd (
              upper_hex_not_decimal text n (
                subst (λ z. parse_radix 10 (2 ^ 64) (48 ∷ z ∷ text) ≡ some n)
                  ((==_iff d 88).0 upper_x) at_zero))
          | inr not_upper ↦ rw zero_digit (rw not_lower (rw not_upper refl))
        ]
      ]
]

patch_number-decimal : (n : ℕ) → n < 2 ^ 64 → patch_number (decimal n) ≡ some n
unfolding patch_number
patch_number-decimal n h =
    let digits = parse_radix-decimal (2 ^ 64) n h h in
    rw (decimal_no_prefix (decimal n) n digits) digits

-- A value that starts with the name NUM_DISK_SECTORS comes to the bytes of that variable, whatever
-- follows the name, also an offset that the value takes away from it.
pub resolve_value_drops_rest :
    (vars : Text → Option Text) (entry : PatchEntry) (rest : Text) (n : ℕ)
    → entry.value ≡ lit "NUM_DISK_SECTORS" ++ rest
    → vars (lit "NUM_DISK_SECTORS") ≡ some (decimal n)
    → n < 2 ^ 64
    → entry.size_in_bytes ≤ 8
    → resolve_value vars entry ≡ ok (take entry.size_in_bytes (to_le_bytes 8 n))
unfolding resolve_value resolved
resolve_value_drops_rest vars entry rest n value known bound small =
    rw value
      (rw known (rw (patch_number-decimal n bound) (rw (le→leb entry.size_in_bytes 8 small) refl)))
