-- ===== src/Executor/Gpt.antt =====
-- qedl-job/src/executor.rs: `read_gpt_for_lun` and `load_gpt`.
use qedl_rs.Prelude.{
  ℕ, ◌+◌, ◌-◌, ◌*◌, ◌%◌, ◌^◌, ◌&&◌, Option, none, some, List, [], ◌∷◌, map, ltb, leb, ◌==◌, Outcome,
  ok, err, panic, hang, match_option, if◌then◌else◌,
}
use qedl_rs.Prelude.Bytes.{Bytes}
use qedl_rs.Prelude.Words.{add64, sub64, div_ceil}
use qedl_rs.Text.{Text, lit, contains}
use qedl_rs.Transport.Port.{Act, ◌>>=◌, ◌>>◌, ret, fail, Transport}
use qedl_rs.Firehose.Response.{XmlEvent}
use qedl_rs.Firehose.Client.{Link}
use qedl_rs.Firehose.Client.Calls.{update_from_storage_info}
use qedl_rs.Firehose.Client.Sectors.{read_sectors}
use qedl_rs.Job.Context.{PartitionInfo, JobError, precondition_failed, firehose, storage}
use qedl_rs.Storage.Gpt.Header.{StorageError, GptHeader}
use qedl_rs.Storage.Gpt.Entry.{GptEntry}
use qedl_rs.Storage.Gpt.Table.{GptTable, parse}
use qedl_rs.Storage.Partition.{add_table, all_entries}
use qedl_rs.Executor.{JobExecutor, map_err, Attempt, done, failed, attempt, with_port}

-- The sectors of the entries: the product is one of `u32`, and the division panics on a sector size
-- of zero.
unfoldable pub entry_sectors : ℕ → Option GptHeader → Outcome JobError ℕ
entry_sectors sector_size none = ok 0
entry_sectors sector_size (some h) =
    if ltb 0 sector_size
    then ok (div_ceil (h.num_partition_entries * h.partition_entry_size % 2 ^ 32) sector_size)
    else panic

abbrev pub entry_lba : Option GptHeader → ℕ
entry_lba none = 2
entry_lba (some h) = h.partition_entry_start_lba

abbrev pub as_job : {A : Type 0} → Outcome StorageError A → Outcome JobError A
as_job o = map_err (λ e. storage) o

module _ {W : Type 0} (t : Transport W) (xml_events : Text → List XmlEvent) (fuel : ℕ) where
  -- `firehose.read_sectors(..).await?`
  unfoldable pub read_lba : ℕ → ℕ → ℕ → Act (Link W) JobError Bytes
  read_lba lun start count s =
      let run = read_sectors t xml_events fuel lun start count s in
      (map_err (λ e. firehose) run.0, run.1)

  -- A header without its entries, and the sector it was read from: `lba1_data`, or the backup.
  unfoldable pub header_or_backup :
      ℕ → ℕ → ℕ → Bytes → Outcome StorageError GptTable → Act (Link W) JobError (GptTable × Bytes)
  header_or_backup lun sector_size total_sectors lba1_data (ok gpt) = ret (gpt, lba1_data)
  header_or_backup lun sector_size total_sectors lba1_data (err e) =
      let backup = (do
        backup_header ← read_lba lun (total_sectors - 1) 1
        gpt ← (λ s. (as_job (parse backup_header [] lun sector_size), s))
        ret (gpt, backup_header)) in
      if total_sectors == 0 then fail storage else backup
  header_or_backup lun sector_size total_sectors lba1_data panic = λ s. (panic, s)
  header_or_backup lun sector_size total_sectors lba1_data hang = λ s. (hang, s)

  -- The backup entries are read, and what comes of it is only logged.
  unfoldable pub check_backup : ℕ → ℕ → ℕ → Act (Link W) JobError (Unit {0})
  check_backup lun total_sectors sectors =
      let reading = (do
        backup_entries ← attempt (read_lba lun (sub64 (total_sectors - 1) sectors) sectors)
        ret tt) in
      if ltb 0 total_sectors then reading else ret tt

  unfoldable pub read_gpt_for_lun : ℕ → ℕ → ℕ → Act (Link W) JobError GptTable
  read_gpt_for_lun lun sector_size total_sectors = do
    lba1_data ← read_lba lun 1 1
    found ←
        header_or_backup lun sector_size total_sectors lba1_data
          (parse lba1_data [] lun sector_size)
    sectors ← (λ s. (entry_sectors sector_size found.0.header, s))
    let with_entries = (do
      entries_data ← read_lba lun (entry_lba found.0.header) sectors
      gpt ← (λ s. (as_job (parse found.1 entries_data lun sector_size), s))
      check_backup lun total_sectors sectors
      ret gpt)
    if ltb 0 sectors then with_entries else ret found.0

-- `to_lowercase` on ASCII: no other character has a lower case among the letters of "ufs".
abbrev lower : ℕ → ℕ
lower c = if leb 65 c && leb c 90 then c + 32 else c

unfoldable pub luns_of : Text → List ℕ
luns_of memory_name =
    if contains (map lower memory_name) (lit "ufs") then 0 ∷ 1 ∷ 2 ∷ 3 ∷ [] else 0 ∷ []

unfoldable pub info_of : GptEntry → PartitionInfo
info_of e = record {
  name = e.name;
  first_lba = e.first_lba;
  last_lba = e.last_lba;
  physical_partition = e.physical_partition;
}

module _ {V W : Type 0} where
  -- The size of the storage, where nothing else told it.
  unfoldable pub learn_total : GptTable → JobExecutor V W → JobExecutor V W
  learn_total table x = match_option table.header x (λ hdr.
      if x.firehose.total_sectors == 0 && table.primary_valid
      then record x {
        firehose = update_from_storage_info none (some (add64 hdr.backup_lba 1)) x.firehose;
      }
      else x)

  -- What the loop does with the table of a logical unit, or the error for it: that of the first one
  -- ends the call.
  unfoldable pub keep_table :
      ℕ → Attempt JobError GptTable → Act (JobExecutor V W) JobError (Unit {0})
  keep_table lun (done table) x =
      let y = learn_total table x in (ok tt, record y { partitions = add_table y.partitions table })
  keep_table lun (failed e) x = (if lun == 0 then err e else ok tt, x)

  -- The last step of `load_gpt`.
  unfoldable pub set_infos : Act (JobExecutor V W) JobError (Unit {0})
  set_infos x = (ok tt, record x { partition_infos = map info_of (all_entries x.partitions) })

module _ {V W : Type 0} (t : Transport W) (xml_events : Text → List XmlEvent) (fuel : ℕ) where
  unfoldable pub load_loop : ℕ → ℕ → List ℕ → Act (JobExecutor V W) JobError (Unit {0})
  load_loop sector_size total_sectors [] = ret tt
  load_loop sector_size total_sectors (lun ∷ luns) = do
    table ← attempt (with_port (read_gpt_for_lun t xml_events fuel lun sector_size total_sectors))
    keep_table lun table
    load_loop sector_size total_sectors luns

  -- The sizes and the name of the storage are those from before the loop.
  unfoldable pub load_gpt : Act (JobExecutor V W) JobError (Unit {0})
  load_gpt x =
      let f = x.firehose in
      match_option x.transport (err precondition_failed, x)
        (λ w. (load_loop f.sector_size f.total_sectors (luns_of f.memory_name) >> set_infos) x)
