-- ===== src/Prelude/Bytes.antt =====
-- Byte strings as lists of numbers, and `to_le_bytes` / `from_le_bytes` of the unsigned integers.
use Prim.Native.Nat.{ℕ, zero, suc, ◌+◌, ◌-◌, ◌*◌, ◌/◌, ◌%◌, ◌^◌, ◌<◌, ◌≤◌}
use mathlib.Core.Path.{◌≡◌, refl, ap, ◌∙◌}
use mathlib.Core.List.{List, [], ◌∷◌, ◌++◌}
use native.Mathlib.Omega.{arith}
use native.Mathlib.Nat.{pow-suc}
use qedl_rs.Prelude.Lists.{length, take, drop, All}

abbrev pub IsByte : ℕ → Type 0
IsByte b = b < 256

abbrev pub Bytes : Type 0
Bytes = List ℕ

-- Lowest byte first, `w` bytes.
abbrev pub to_le_bytes : ℕ → ℕ → Bytes
to_le_bytes zero n = []
to_le_bytes (suc w) n = (n % 256) ∷ to_le_bytes w (n / 256)

abbrev pub from_le_bytes : Bytes → ℕ
from_le_bytes [] = 0
from_le_bytes (b ∷ bs) = b + 256 * from_le_bytes bs

-- `data[a..b]`, where the caller has checked the bounds.
abbrev pub slice : {A : Type 0} → List A → ℕ → ℕ → List A
slice xs a b = take (b - a) (drop a xs)

pub take-take : {A : Type 0} (m k : ℕ) (xs : List A) → m ≤ k → take m (take k xs) ≡ take m xs
take-take zero k xs h = refl
take-take (suc m) zero xs h = elim h [ ]
take-take (suc m) (suc k) [] h = refl
take-take (suc m) (suc k) (x ∷ xs) h = ap (λ t. x ∷ t) (take-take m k xs (omega arith))

drop-take :
    {A : Type 0} (a n k : ℕ) (xs : List A) → n ≡ a + k → drop a (take n xs) ≡ take k (drop a xs)
drop-take zero n k xs h = ap (λ t. take t xs) (omega arith)
drop-take (suc a) zero k xs h = absurd (omega arith)
drop-take (suc a) (suc n) zero [] h = refl
drop-take (suc a) (suc n) (suc k) [] h = refl
drop-take (suc a) (suc n) k (x ∷ xs) h = drop-take a n k xs (omega arith)

-- A slice within the first `n` elements does not see what follows them.
pub slice-take :
    {A : Type 0} (n a b : ℕ) (xs : List A) → a ≤ n → b ≤ n → slice (take n xs) a b ≡ slice xs a b
slice-take n a b xs h k =
    ap (λ t. take (b - a) t) (drop-take a n (n - a) xs (omega arith))
    ∙ take-take (b - a) (n - a) (drop a xs) (omega arith)

-- `from_le_bytes(data[a..b].try_into())`
abbrev pub le_at : Bytes → ℕ → ℕ → ℕ
le_at bs a b = from_le_bytes (slice bs a b)

pub from_le_bytes-to_le_bytes : (w n : ℕ) → n < 256 ^ w → from_le_bytes (to_le_bytes w n) ≡ n
from_le_bytes-to_le_bytes zero n h = omega arith
from_le_bytes-to_le_bytes (suc w) n h =
    omega (arith, from_le_bytes-to_le_bytes w (n / 256) (omega (arith, pow-suc 256 w)))

pub length-to_le_bytes : (w n : ℕ) → length (to_le_bytes w n) ≡ w
length-to_le_bytes zero n = refl
length-to_le_bytes (suc w) n = omega (arith, length-to_le_bytes w (n / 256))

pub to_le_bytes-IsByte : (w n : ℕ) → All IsByte (to_le_bytes w n)
to_le_bytes-IsByte zero n = tt
to_le_bytes-IsByte (suc w) n = (omega arith, to_le_bytes-IsByte w (n / 256))

pub All-take {ℓ κ} :
    {A : Type ℓ} (P : A → Type κ) (n : ℕ) (xs : List A) → All P xs → All P (take n xs)
All-take P zero xs h = tt
All-take P (suc n) [] h = tt
All-take P (suc n) (x ∷ xs) h = (h.0, All-take P n xs h.1)

pub All-drop {ℓ κ} :
    {A : Type ℓ} (P : A → Type κ) (n : ℕ) (xs : List A) → All P xs → All P (drop n xs)
All-drop P zero xs h = h
All-drop P (suc n) [] h = tt
All-drop P (suc n) (x ∷ xs) h = All-drop P n xs h.1

pub All-append {ℓ κ} :
    {A : Type ℓ} (P : A → Type κ) (xs ys : List A) → All P xs → All P ys → All P (xs ++ ys)
All-append P [] ys h k = k
All-append P (x ∷ xs) ys h k = (h.0, All-append P xs ys h.1 k)

-- `n` bytes hold a number below 256 ^ n.
from_le_bytes-take-lt : (n : ℕ) (bs : Bytes) → All IsByte bs → from_le_bytes (take n bs) < 256 ^ n
from_le_bytes-take-lt zero bs h = omega arith
from_le_bytes-take-lt (suc n) [] h = omega (arith, pow-suc 256 n, from_le_bytes-take-lt n [] tt)
from_le_bytes-take-lt (suc n) (b ∷ bs) h =
    omega (arith, pow-suc 256 n, from_le_bytes-take-lt n bs h.1, h.0)

pub le_at-lt : (bs : Bytes) (a b : ℕ) → All IsByte bs → le_at bs a b < 256 ^ (b - a)
le_at-lt bs a b h = from_le_bytes-take-lt (b - a) (drop a bs) (All-drop IsByte a bs h)

-- Two and four bytes, as `from_le_bytes` reads them where the list is written out.
pub le_2 : (n : ℕ) → n < 2 ^ 16 → n % 256 + 256 * (n / 256 % 256 + 256 * 0) ≡ n
le_2 n h = omega arith

pub le_4 :
    (n : ℕ)
    → n < 2 ^ 32
    → n % 256
        + 256
          * (n / 256 % 256
              + 256 * (n / 256 / 256 % 256 + 256 * (n / 256 / 256 / 256 % 256 + 256 * 0)))
      ≡ n
le_4 n h = omega arith
