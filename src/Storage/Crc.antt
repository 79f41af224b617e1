-- ===== src/Storage/Crc.antt =====
-- qedl-storage/src/gpt.rs: the table-driven CRC-32.
use Prim.Native.Nat.{bit_and, bit_xor}
use qedl_rs.Prelude.{
  ℕ, zero, suc, ◌+◌, ◌/◌, ◌≡◌, refl, List, [], ◌∷◌, ◌==◌, if◌then◌else◌, get_elem?, Option, none,
  some,
}
use qedl_rs.Prelude.Bytes.{Bytes}

-- One round of the inner `while j < 8` loop of the table.
unfoldable pub crc_shift : ℕ → ℕ
crc_shift crc = if bit_and crc 1 == 0 then crc / 2 else bit_xor 0xEDB88320 (crc / 2)

unfoldable pub crc_rounds : ℕ → ℕ → ℕ
unfolding crc_shift
crc_rounds zero crc = crc
crc_rounds (suc j) crc = crc_rounds j (crc_shift crc)

-- The rows from `i` on, `n` of them: the outer loop of `CRC32_TABLE`.
unfoldable pub table_from : ℕ → ℕ → List ℕ
unfolding crc_rounds
table_from zero i = []
table_from (suc n) i = crc_rounds 8 i ∷ table_from n (i + 1)

unfoldable pub crc32_table : List ℕ
unfolding table_from
crc32_table = table_from 256 0

-- The index is below 256, so the other case does not arise.
abbrev entry_or_zero : Option ℕ → ℕ
entry_or_zero none = 0
entry_or_zero (some v) = v

unfoldable pub crc32_byte : ℕ → ℕ → ℕ
unfolding crc32_table
crc32_byte crc byte =
    bit_xor (entry_or_zero (get_elem? crc32_table (bit_and (bit_xor crc byte) 0xFF))) (crc / 256)

-- The loop over the bytes, from a running checksum.
unfoldable pub crc32_update : ℕ → Bytes → ℕ
crc32_update crc [] = crc
crc32_update crc (b ∷ bs) = crc32_update (crc32_byte crc b) bs

unfoldable pub crc32 : Bytes → ℕ
unfolding crc32_update
crc32 bs = bit_xor (crc32_update 0xFFFFFFFF bs) 0xFFFFFFFF

-- The check value of CRC-32: the text "123456789".
crc32_check : crc32 (0x31 ∷ 0x32 ∷ 0x33 ∷ 0x34 ∷ 0x35 ∷ 0x36 ∷ 0x37 ∷ 0x38 ∷ 0x39 ∷ []) ≡ 0xCBF43926
unfolding crc32 crc32_byte
crc32_check = refl
