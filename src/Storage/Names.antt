-- ===== src/Storage/Names.antt =====
-- `str::trim` and `str::trim_matches`, as qedl-storage uses them on partition names.
use qedl_rs.Prelude.{ℕ, Bool, ◌&&◌, ◌||◌, [], ◌∷◌, leb, ◌==◌, if◌then◌else◌}
use mathlib.Core.List.{reverse}
use qedl_rs.Storage.Gpt.Entry.{Text}

-- The code points with the property White_Space.
unfoldable pub is_whitespace : ℕ → Bool
is_whitespace c =
    leb 9 c && leb c 13
    || c == 0x20
    || c == 0x85
    || c == 0xA0
    || c == 0x1680
    || leb 0x2000 c && leb c 0x200A
    || c == 0x2028
    || c == 0x2029
    || c == 0x202F
    || c == 0x205F
    || c == 0x3000

unfoldable pub is_nul : ℕ → Bool
is_nul c = c == 0

-- `trim_start_matches`, `trim_end_matches`, `trim_matches` by a test.
unfoldable pub trim_start_by : (ℕ → Bool) → Text → Text
trim_start_by p [] = []
trim_start_by p (c ∷ cs) = if p c then trim_start_by p cs else c ∷ cs

unfoldable pub trim_end_by : (ℕ → Bool) → Text → Text
trim_end_by p cs = reverse (trim_start_by p (reverse cs))

unfoldable pub trim_by : (ℕ → Bool) → Text → Text
trim_by p cs = trim_end_by p (trim_start_by p cs)

unfoldable pub trim : Text → Text
trim cs = trim_by is_whitespace cs

-- `.trim().trim_matches('\0').trim()`
unfoldable pub clean_name : Text → Text
clean_name cs = trim (trim_by is_nul (trim cs))
