-- ===== src/Storage/File.antt =====
-- The files of the file storage (novena_gateway/storage/file): its settings, the data folder, the
-- names of data files that `EventStorageFiles` keeps, and the reader's pointer.
pub mod Writer
pub mod Reader
pub mod Start
pub mod Extends
pub mod Written
pub mod Scanned
pub mod Dropped
mod Tests
use novena_gateway.Common.{
  ℕ, Bool, true, false, Option, none, some, List, [], ◌∷◌, ◌++◌, if◌then◌else◌, ltb, is_some, ◌==◌,
}

-- `FileEventStorageSettings`, without the folder's path and the records between two flushes: each
-- write ends with the close of its writer, which flushes.
pub record Settings : Type 0 where
  pub max_files_count : ℕ
  pub max_records_per_file : ℕ
  pub max_read_records_count : ℕ

-- `EventStorageReaderPointer`. A data file data_<n>.txt is named by its number n, a time in
-- milliseconds: the order of the names is that of the numbers while these have equally many digits.
pub record Pointer : Type 0 where
  pub file : ℕ
  pub line : ℕ

-- The data files of the folder and their lines, in the order of the names.
abbrev pub Folder : Type 0 → Type 0
Folder L = List (ℕ × List L)

module _ {L : Type 0} where
  -- `open(path)`: a missing file is none.
  unfoldable pub lines_of : ℕ → Folder L → Option (List L)
  lines_of f [] = none
  lines_of f ((g, ls) ∷ d) = let rest = lines_of f d in if f == g then some ls else rest

  abbrev pub exists : ℕ → Folder L → Bool
  exists f d = is_some (lines_of f d)

  -- `os.open(path, O_CREAT | O_EXCL)`: a file that exists is left as it is.
  unfoldable pub create_file : ℕ → Folder L → Folder L
  create_file f [] = (f, []) ∷ []
  create_file f ((g, ls) ∷ d) =
      let rest = create_file f d in
      if f == g then (g, ls) ∷ d else if ltb f g then (f, []) ∷ (g, ls) ∷ d else (g, ls) ∷ rest

  -- A write in the mode 'a', to a file that exists.
  unfoldable pub append_line : ℕ → L → Folder L → Folder L
  append_line f l [] = []
  append_line f l ((g, ls) ∷ d) =
      let rest = append_line f l d in if f == g then (g, ls ++ l ∷ []) ∷ d else (g, ls) ∷ rest

  -- `os.remove`
  unfoldable pub remove_file : ℕ → Folder L → Folder L
  remove_file f [] = []
  remove_file f ((g, ls) ∷ d) = let rest = remove_file f d in if f == g then d else (g, ls) ∷ rest

  abbrev pub names : Folder L → List ℕ
  names [] = []
  names ((f, ls) ∷ d) = f ∷ names d

-- `data_files` of `EventStorageFiles`, the dict as the sorted list of its keys: nothing reads what it
-- holds of a file. `add_data_file` and `confirm_file_processed` both set a key.
unfoldable pub add_data_file : ℕ → List ℕ → List ℕ
add_data_file f [] = f ∷ []
add_data_file f (g ∷ fs) =
    let rest = add_data_file f fs in
    if f == g then g ∷ fs else if ltb f g then f ∷ g ∷ fs else g ∷ rest

-- `del self.data_files[data_file]`, of a key that is present.
unfoldable pub remove_data_file : ℕ → List ℕ → List ℕ
remove_data_file f [] = []
remove_data_file f (g ∷ fs) = let rest = remove_data_file f fs in if f == g then fs else g ∷ rest

abbrev pub has_file : ℕ → List ℕ → Bool
has_file f [] = false
has_file f (g ∷ fs) = if f == g then true else has_file f fs

-- `state_file.txt`
pub data StateFile : Type 0 where
  absent : StateFile
  undecodable : StateFile
  holds : Pointer → StateFile

-- `FileEventStorage` with its writer and its reader, over the folder. An open reader is the number of
-- lines that it has read of the file of new_pos. The two pointers of the reader are one object until
-- it moves to another file: old_pos is current_pos once that is another object.
pub record FileStorage (L A : Type 0) : Type 0 where
  pub folder : Folder L
  pub state_file : StateFile
  pub data_files : List ℕ
  pub current_file : ℕ
  pub current_file_records_count : ℕ
  pub current_batch : List A
  pub buffered_reader : Option ℕ
  pub new_pos : Pointer
  pub old_pos : Option Pointer
  pub stopped : Bool
