-- ===== src/Storage/File/Start.antt =====
-- `FileEventStorage.__init__`: the data files that the folder holds, the state file, and where the
-- writer and the reader begin.
use novena_gateway.Common.{
  ℕ, Bool, true, false, Option, none, some, List, [], ◌∷◌, length, ◌==◌, if◌then◌else◌, head?,
}
use novena_gateway.Storage.File.{
  Pointer, StateFile, absent, undecodable, holds, FileStorage, Folder, names, create_file, lines_of,
  has_file,
}
use novena_gateway.Storage.File.Reader.{or_empty, delete_all}

module _ {L : Type 0} where
  -- `data_files_size == 0`: no line is empty, for each ends with a line separator.
  unfoldable pub is_empty_folder : Folder L → Bool
  is_empty_folder [] = true
  is_empty_folder ((f, []) ∷ d) = is_empty_folder d
  is_empty_folder ((f, l ∷ ls) ∷ d) = false

  -- `init_data_files`, up to the state file: a folder without records gets a new data file, which
  -- replaces one of that name, empty too.
  unfoldable pub init_data_files : ℕ → Folder L → Folder L
  init_data_files now d = if is_empty_folder d then create_file now d else d

abbrev pub init_state_file : Option ℕ → StateFile → StateFile
init_state_file none f = f
init_state_file (some first) absent = holds (record { file = first; line = 0 })
init_state_file (some first) undecodable = undecodable
init_state_file (some first) (holds p) = holds p

abbrev pub last? : List ℕ → Option ℕ
last? [] = none
last? (f ∷ []) = some f
last? (f ∷ g ∷ fs) = last? (g ∷ fs)

-- `read_state_file`, with the first data file: a pointer to a file that is gone is not used.
unfoldable pub read_state_file : ℕ → List ℕ → StateFile → Pointer
read_state_file first files absent = record { file = first; line = 0 }
read_state_file first files undecodable = record { file = first; line = 0 }
read_state_file first files (holds p) =
    if has_file p.file files then p else record { file = first; line = 0 }

-- `get_data_files()[:index]`, the files before the pointer's.
unfoldable pub files_before : ℕ → List ℕ → List ℕ
files_before f [] = []
files_before f (g ∷ gs) = let rest = files_before f gs in if g == f then [] else g ∷ rest

module _ {L A : Type 0} where
  unfoldable pub begin : Folder L → StateFile → ℕ → ℕ → FileStorage L A
  begin d state first last =
      let pos : Pointer = read_state_file first (names d) state in
      delete_all (files_before pos.file (names d)) (record {
        folder = d;
        state_file = state;
        data_files = names d;
        current_file = last;
        current_file_records_count = length (or_empty (lines_of last d));
        current_batch = [];
        buffered_reader = none;
        new_pos = pos;
        old_pos = none;
        stopped = false;
      })

  abbrev pub begin_with : Folder L → StateFile → Option ℕ → Option ℕ → Option (FileStorage L A)
  begin_with d state none last = none
  begin_with d state (some first) none = none
  begin_with d state (some first) (some last) = some (begin d state first last)

  -- The constructor: none is the IndexError of a folder without data files, which `init_data_files`
  -- excludes.
  unfoldable pub start : ℕ → Folder L → StateFile → Option (FileStorage L A)
  start now d state =
      let files = init_data_files now d in
      begin_with files (init_state_file (head? (names files)) state) (head? (names files))
        (last? (names files))
