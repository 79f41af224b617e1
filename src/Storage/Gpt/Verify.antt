-- ===== src/Storage/Gpt/Verify.antt =====
-- qedl-storage/src/gpt.rs: what the header's checksum covers, and reading a header back.
use Prim.Native.Nat.{bit_xor}
use qedl_rs.Prelude.{
  ℕ, zero, suc, ◌+◌, ◌^◌, ◌<◌, ◌≤◌, ◌≡◌, refl, sym, ap, ◌∙◌, true, [], ◌∷◌, ◌++◌, ◌↔◌, arith,
  length, take, drop, length-take, length-drop, drop-drop, ok,
}
use qedl_rs.Prelude.Bytes.{Bytes, to_le_bytes, from_le_bytes-to_le_bytes}
use qedl_rs.Storage.Crc.{crc32, crc32_update, crc32_byte}
use qedl_rs.Storage.Gpt.Header.{
  GptHeader, gpt_signature, GptHeader_from_bytes, header_crc_loop, verify_header_crc,
}

-- The header with its checksum field, the bytes 16 to 19, put to zero.
abbrev pub zero_crc_field : Bytes → Bytes
zero_crc_field bs = take 16 bs ++ (0 ∷ 0 ∷ 0 ∷ 0 ∷ drop 20 bs)

crc32_update-append :
    (crc : ℕ) (xs ys : Bytes) → crc32_update crc (xs ++ ys) ≡ crc32_update (crc32_update crc xs) ys
unfolding crc32_update
crc32_update-append crc [] ys = refl
crc32_update-append crc (x ∷ xs) ys = crc32_update-append (crc32_byte crc x) xs ys

-- Before the field the loop is the plain checksum.
header_crc_loop_front :
    (k i crc : ℕ) (bs : Bytes)
    → i + k ≡ 16
    → k ≤ length bs
    → header_crc_loop crc i bs ≡ header_crc_loop (crc32_update crc (take k bs)) 16 (drop k bs)
unfolding header_crc_loop crc32_update
header_crc_loop_front zero i crc bs e h = ap (λ j. header_crc_loop crc j bs) (omega arith)
header_crc_loop_front (suc k) i crc [] e h = elim h [ ]
header_crc_loop_front (suc k) i crc (b ∷ bs) e h =
    ground (arith, header_crc_loop_front k (i + 1) (crc32_byte crc b) bs)

-- Behind the field too.
header_crc_loop_back :
    (i crc : ℕ) (bs : Bytes) → 20 ≤ i → header_crc_loop crc i bs ≡ crc32_update crc bs
unfolding header_crc_loop crc32_update
header_crc_loop_back i crc [] h = refl
header_crc_loop_back i crc (b ∷ bs) h =
    ground (arith, header_crc_loop_back (i + 1) (crc32_byte crc b) bs)

header_crc_loop_field :
    (crc : ℕ) (bs : Bytes)
    → 4 ≤ length bs
    → header_crc_loop crc 16 bs ≡ crc32_update crc (0 ∷ 0 ∷ 0 ∷ 0 ∷ drop 4 bs)
unfolding header_crc_loop crc32_update
header_crc_loop_field crc (a ∷ b ∷ c ∷ d ∷ bs) h = header_crc_loop_back 20 _ bs (omega arith)
header_crc_loop_field crc [] h = absurd (omega arith)
header_crc_loop_field crc (a ∷ []) h = absurd (omega arith)
header_crc_loop_field crc (a ∷ b ∷ []) h = absurd (omega arith)
header_crc_loop_field crc (a ∷ b ∷ c ∷ []) h = absurd (omega arith)

header_crc_loop-zero_crc_field :
    (bs : Bytes)
    → 20 ≤ length bs
    → bit_xor (header_crc_loop 0xFFFFFFFF 0 bs) 0xFFFFFFFF ≡ crc32 (zero_crc_field bs)
unfolding crc32
header_crc_loop-zero_crc_field bs h =
    ap (λ c. bit_xor c 0xFFFFFFFF)
      (header_crc_loop_front 16 0 0xFFFFFFFF bs refl (omega arith)
        ∙ header_crc_loop_field _ (drop 16 bs) (omega (arith, length-drop 16 bs))
        ∙ ap (λ t. crc32_update (crc32_update 0xFFFFFFFF (take 16 bs)) (0 ∷ 0 ∷ 0 ∷ 0 ∷ t))
            (sym (drop-drop 16 4 bs))
        ∙ sym (crc32_update-append 0xFFFFFFFF (take 16 bs) (0 ∷ 0 ∷ 0 ∷ 0 ∷ drop 20 bs)))

-- The check passes exactly when the header size is at least 92 and at most the length of the data,
-- and the CRC-32 of that many bytes, with the checksum field put to zero, is the stored one.
pub verify_header_crc_iff :
    (h : GptHeader) (raw : Bytes)
    → (verify_header_crc h raw ≡ true) ↔ (
        (92 ≤ h.header_size)
        × (h.header_size ≤ length raw)
        × (crc32 (zero_crc_field (take h.header_size raw)) ≡ h.header_crc32))
unfolding verify_header_crc
verify_header_crc_iff h raw =
    ground (
      arith,
      length-take h.header_size raw,
      header_crc_loop-zero_crc_field (take h.header_size raw),
    )

-- The first 92 bytes of a header: the disk's GUID is given as a number.
abbrev pub gpt_header_bytes : GptHeader → ℕ → Bytes → Bytes
gpt_header_bytes h guid reserved =
    gpt_signature
    ++ (to_le_bytes 4 h.revision
        ++ (to_le_bytes 4 h.header_size
            ++ (to_le_bytes 4 h.header_crc32
                ++ (to_le_bytes 4 0
                    ++ (to_le_bytes 8 h.current_lba
                        ++ (to_le_bytes 8 h.backup_lba
                            ++ (to_le_bytes 8 h.first_usable_lba
                                ++ (to_le_bytes 8 h.last_usable_lba
                                    ++ (to_le_bytes 16 guid
                                        ++ (to_le_bytes 8 h.partition_entry_start_lba
                                            ++ (to_le_bytes 4 h.num_partition_entries
                                                ++ (to_le_bytes 4 h.partition_entry_size
                                                    ++ (to_le_bytes 4 h.partition_entries_crc32
                                                        ++ reserved)))))))))))))

-- The fields are in the range of their integer types.
pub record IsGptHeader (h : GptHeader) (guid : ℕ) : Type 0 where
  pub signed : h.signature ≡ gpt_signature
  pub guid_bytes : h.disk_guid ≡ to_le_bytes 16 guid
  pub revision_u32 : h.revision < 2 ^ 32
  pub size_u32 : h.header_size < 2 ^ 32
  pub crc_u32 : h.header_crc32 < 2 ^ 32
  pub current_u64 : h.current_lba < 2 ^ 64
  pub backup_u64 : h.backup_lba < 2 ^ 64
  pub first_u64 : h.first_usable_lba < 2 ^ 64
  pub last_u64 : h.last_usable_lba < 2 ^ 64
  pub start_u64 : h.partition_entry_start_lba < 2 ^ 64
  pub count_u32 : h.num_partition_entries < 2 ^ 32
  pub entry_size_u32 : h.partition_entry_size < 2 ^ 32
  pub entries_crc_u32 : h.partition_entries_crc32 < 2 ^ 32

-- `GptHeader::from_bytes` reads back every field of a header that is laid out as the UEFI format
-- says, with at least 36 bytes behind its 92.
pub GptHeader_from_bytes-gpt_header_bytes :
    (h : GptHeader) (guid : ℕ) (reserved : Bytes)
    → IsGptHeader h guid
    → 36 ≤ length reserved
    → GptHeader_from_bytes (gpt_header_bytes h guid reserved) ≡ ok h
unfolding GptHeader_from_bytes
GptHeader_from_bytes-gpt_header_bytes h guid reserved v r = ground (
  arith,
  from_le_bytes-to_le_bytes 4 h.revision,
  from_le_bytes-to_le_bytes 4 h.header_size,
  from_le_bytes-to_le_bytes 4 h.header_crc32,
  from_le_bytes-to_le_bytes 8 h.current_lba,
  from_le_bytes-to_le_bytes 8 h.backup_lba,
  from_le_bytes-to_le_bytes 8 h.first_usable_lba,
  from_le_bytes-to_le_bytes 8 h.last_usable_lba,
  from_le_bytes-to_le_bytes 8 h.partition_entry_start_lba,
  from_le_bytes-to_le_bytes 4 h.num_partition_entries,
  from_le_bytes-to_le_bytes 4 h.partition_entry_size,
  from_le_bytes-to_le_bytes 4 h.partition_entries_crc32,
)
