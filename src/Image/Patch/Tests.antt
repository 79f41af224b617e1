-- ===== src/Image/Patch/Tests.antt =====
-- The value that patch files give for the last sectors of a disk.
use qedl_rs.Prelude.{◌≡◌, refl, Option, some, ok, take, arith}
use qedl_rs.Prelude.Bytes.{to_le_bytes}
use qedl_rs.Text.{Text, lit}
use qedl_rs.Text.Number.{decimal}
use qedl_rs.Image.Patch.{PatchEntry, resolve_value}
use qedl_rs.Image.Patch.Laws.{resolve_value_drops_rest}

abbrev vars : Text → Option Text
vars name = some (decimal 1000)

abbrev last_header : PatchEntry
last_header = record {
  byte_offset = 32;
  filename = lit "DISK";
  physical_partition = 0;
  size_in_bytes = 8;
  start_sector = 1;
  value = lit "NUM_DISK_SECTORS-1.";
}

resolve_value_drops_rest_example : resolve_value vars last_header ≡ ok (take 8 (to_le_bytes 8 1000))
resolve_value_drops_rest_example =
    resolve_value_drops_rest vars last_header (lit "-1.") 1000 refl refl (omega arith) (omega arith)
