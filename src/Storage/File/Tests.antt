-- ===== src/Storage/File/Tests.antt =====
-- Runs of the file storage with its default settings, and the theorems at concrete inputs.
use novena_gateway.Common.{
  ℕ, ◌+◌, ◌-◌, ◌≡◌, refl, false, Option, none, some, List, [], ◌∷◌, ◌++◌, arith, map,
}
use novena_gateway.Storage.File.{
  Settings, absent, holds, FileStorage, Folder, remove_file, lines_of, create_file, append_line,
  add_data_file, remove_data_file,
}
use novena_gateway.Storage.File.Start.{
  start, begin, init_data_files, is_empty_folder, read_state_file, files_before,
}
use novena_gateway.Storage.File.Writer.{put, write, ready_file, append_record, create_datafile}
use novena_gateway.Storage.File.Reader.{
  get_event_pack, discard_batch, read_loop, get_or_init_buffered_reader, read_lines, after_lines,
  move_to, delete_read_file, delete_all, processed_files, scan, get_next_file, first_position,
  skip_lines,
}
use novena_gateway.Storage.File.Extends.{lines}
use novena_gateway.Storage.File.Written.{put_all, put_all-lines}
use novena_gateway.Storage.File.Dropped.{standing, reopened_skips, moved_drops}

abbrev defaults : Settings
defaults = record { max_files_count = 5; max_records_per_file = 3; max_read_records_count = 1000 }

abbrev two_per_pack : Settings
two_per_pack = record { max_files_count = 5; max_records_per_file = 3; max_read_records_count = 2 }

abbrev encode : ℕ → ℕ
encode n = n + 100

abbrev decode : ℕ → Option ℕ
decode n = some (n - 100)

decode-encode : (n : ℕ) → decode (encode n) ≡ some n
decode-encode n = ground arith

-- A new storage, opened at the time 10.
abbrev fresh : FileStorage ℕ ℕ
fresh = standing ((10, []) ∷ []) (holds (record { file = 10; line = 0 })) (10 ∷ []) 10 0 false 10 0

new_storage : start 10 [] absent ≡ some fresh
unfolding start begin init_data_files is_empty_folder read_state_file files_before delete_all
    create_file lines_of
new_storage = refl

abbrev pack_of : Option (FileStorage ℕ ℕ) → Option (List ℕ)
pack_of none = none
pack_of (some s) = some s.current_batch

abbrev read_then : Option (FileStorage ℕ ℕ) → (FileStorage ℕ ℕ → Option (List ℕ)) → Option (List ℕ)
read_then none next = none
read_then (some s) next = next s

-- Two events are read and acknowledged, and a third is put: the next pack is empty, as the reader was
-- closed after the second and skips the third when it is opened again.
third_lost :
    read_then
      (get_event_pack decode defaults 4 (put_all encode defaults ((11, 1) ∷ (12, 2) ∷ []) fresh).1)
      (λ s.
        pack_of (
          get_event_pack decode defaults 4 (put encode defaults 13 3 (discard_batch defaults s)).1))
    ≡ some []
unfolding put put_all write ready_file append_record create_datafile get_event_pack discard_batch
    read_loop get_or_init_buffered_reader read_lines after_lines move_to delete_read_file delete_all
    processed_files scan get_next_file first_position skip_lines lines_of create_file append_line
    add_data_file remove_data_file
third_lost = refl

put_all-lines_example :
    lines (put_all encode defaults ((11, 1) ∷ (11, 2) ∷ (12, 3) ∷ (13, 4) ∷ []) fresh).1.folder
    ≡ lines fresh.folder
      ++ map encode (put_all encode defaults ((11, 1) ∷ (11, 2) ∷ (12, 3) ∷ (13, 4) ∷ []) fresh).0
put_all-lines_example =
    put_all-lines encode defaults ((11, 1) ∷ (11, 2) ∷ (12, 3) ∷ (13, 4) ∷ []) fresh
      (record { before = []; records = []; split = refl; newest = tt })
      (omega arith, (omega arith, (omega arith, (omega arith, tt))))

abbrev one_file : Folder ℕ
one_file = (10, 101 ∷ 102 ∷ 103 ∷ []) ∷ []

reopened_skips_example :
    (s : FileStorage ℕ ℕ) × (get_event_pack decode defaults 1
        (standing one_file absent (10 ∷ []) 10 3 false 10 1)
      ≡ some s)
    × (s.current_batch ≡ 3 ∷ [])
reopened_skips_example =
    reopened_skips encode decode decode-encode defaults one_file absent (10 ∷ []) 10 3 false 10 0 0
      999 (1 ∷ 2 ∷ 3 ∷ []) refl (unfold lines_of in refl) (omega arith)
      (unfold get_next_file add_data_file in refl)

abbrev two_files : Folder ℕ
two_files = (10, 101 ∷ 102 ∷ 103 ∷ []) ∷ (20, 104 ∷ []) ∷ []

moved_drops_example :
    (s : FileStorage ℕ ℕ) × (get_event_pack decode two_per_pack 2
        (standing two_files absent (10 ∷ 20 ∷ []) 20 1 false 10 0)
      ≡ some s)
    × (s.current_batch ≡ 1 ∷ 2 ∷ [])
    × (s.new_pos ≡ record { file = 20; line = 0 })
    × (s.folder ≡ remove_file 10 two_files)
moved_drops_example =
    moved_drops encode decode decode-encode two_per_pack two_files absent (10 ∷ 20 ∷ []) 20 1 false
      10 0 20 1 (2 ∷ []) (3 ∷ []) refl (omega arith) (unfold lines_of in refl)
      (unfold get_next_file add_data_file in refl)
