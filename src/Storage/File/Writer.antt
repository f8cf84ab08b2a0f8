-- ===== src/Storage/File/Writer.antt =====
-- `EventStorageWriter` (event_storage_writer.py) and the operations of `FileEventStorage` that write.
-- The file system does not fail, and the clock is an argument of each write.
use novena_gateway.Common.{
  ℕ, ◌+◌, Bool, true, false, not, ◌||◌, Option, none, some, length, leb, if◌then◌else◌,
}
use novena_gateway.Storage.File.{
  Settings, FileStorage, exists, create_file, append_line, add_data_file,
}

module _ {L A : Type 0} where
  unfoldable pub create_datafile : ℕ → FileStorage L A → FileStorage L A
  create_datafile now s = record s {
    folder = create_file now s.folder;
    data_files = add_data_file now s.data_files;
    current_file = now;
  }

  -- The file that takes the record: a new one where the current one is full or gone.
  unfoldable pub ready_file : Settings → ℕ → FileStorage L A → FileStorage L A
  ready_file c now s =
      if leb c.max_records_per_file s.current_file_records_count
        || not (exists s.current_file s.folder)
      then record (create_datafile now s) { current_file_records_count = 0 }
      else s

  unfoldable pub append_record : ℕ → L → FileStorage L A → FileStorage L A
  append_record now line s =
      let s' : FileStorage L A =
        if exists s.current_file s.folder then s else create_datafile now s in
      record s' {
        folder = append_line s'.current_file line s'.folder;
        current_file_records_count = s'.current_file_records_count + 1;
      }

  -- `write`: none is DataFileCountError.
  unfoldable pub write : (A → L) → Settings → ℕ → A → FileStorage L A → Option (FileStorage L A)
  write encode c now event s =
      if leb (length s.data_files) c.max_files_count
      then some (append_record now (encode event) (ready_file c now s))
      else none

  abbrev pub written : FileStorage L A → Option (FileStorage L A) → Bool × FileStorage L A
  written s none = (false, s)
  written s (some s') = (true, s')

  -- `FileEventStorage.put`
  unfoldable pub put : (A → L) → Settings → ℕ → A → FileStorage L A → Bool × FileStorage L A
  put encode c now event s =
      if s.stopped then (false, s) else written s (write encode c now event s)

  unfoldable pub stop : FileStorage L A → FileStorage L A
  stop s = record s { stopped = true }

  -- `len`: the number of data files.
  unfoldable pub len : FileStorage L A → ℕ
  len s = length s.data_files
