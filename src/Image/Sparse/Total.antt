-- ===== src/Image/Sparse/Total.antt =====
-- qedl-image/src/sparse.rs: the walk over the chunks ends, and expansion does not panic.
use qedl_rs.Prelude.{ℕ, ◌+◌, ◌-◌, ◌≤◌, ◌≡◌, some, arith, length, drop, length-drop, length-take}
use qedl_rs.Prelude.Bytes.{Bytes}
use qedl_rs.Image.Sparse.Format.{Cursor, read_exact}

-- A successful `read_exact` moves the cursor by `n` within the content.
pub read_exact_lem :
    (c : Cursor) (n : ℕ) {b : Bytes} {d : Cursor}
    → read_exact c n ≡ some (b, d)
    → (length b ≡ n)
      × (d.content ≡ c.content)
      × (d.position ≡ c.position + n)
      × (n ≤ length c.content - c.position)
unfolding read_exact
read_exact_lem c n e =
    ground (arith, length-drop c.position c.content, length-take n (drop c.position c.content))
