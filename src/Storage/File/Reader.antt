-- ===== src/Storage/File/Reader.antt =====
-- `EventStorageReader` (event_storage_reader.py), and the operations of `FileEventStorage` that read.
-- The decoding of a line is a parameter, none where it raises; the file system does not fail but for
-- a file that is missing.
use novena_gateway.Common.{
  ℕ, zero, suc, ◌+◌, ◌-◌, Bool, true, false, ◌&&◌, ◌||◌, Option, none, some, List, [], ◌∷◌, ◌++◌,
  length, drop, ltb, leb, ◌==◌, if◌then◌else◌,
}
use novena_gateway.Storage.File.{
  Settings, Pointer, holds, FileStorage, lines_of, exists, remove_file, add_data_file,
  remove_data_file, has_file,
}

-- What the inner loop of `read` changes: the batch, the records still to read, the local line number
-- and that of the pointer, the lines taken from the open file, whether `line` is empty at the end, and
-- whether a line could not be decoded.
pub record Scan (A : Type 0) : Type 0 where
  pub batch : List A
  pub records_to_read : ℕ
  pub current_line : ℕ
  pub pointer_line : ℕ
  pub taken : ℕ
  pub at_end : Bool
  pub failed : Bool

module _ {L : Type 0} where
  -- `while self.buffered_reader.readline() is not None`, with the lines to skip: the lines that it takes.
  unfoldable pub skip_lines : ℕ → List L → ℕ
  skip_lines zero [] = 0
  skip_lines zero (l ∷ ls) = 1
  skip_lines (suc k) [] = skip_lines k []
  skip_lines (suc k) (l ∷ ls) = suc (skip_lines k ls)

  unfoldable pub first_position : ℕ → List L → ℕ
  first_position zero ls = 0
  first_position (suc k) ls = skip_lines (suc k) ls

module _ {A : Type 0} where
  abbrev pub accept : A → Scan A → Scan A
  accept a r = record r {
    batch = r.batch ++ a ∷ [];
    records_to_read = r.records_to_read - 1;
    current_line = r.current_line + 1;
    pointer_line = r.current_line + 1;
    taken = r.taken + 1;
  }

  -- A line that raises counts twice, and the line after it is read and dropped.
  abbrev pub fail : {L : Type 0} → List L → Scan A → Scan A
  fail [] r = record r {
    current_line = r.current_line + 2;
    pointer_line = r.current_line + 1;
    taken = r.taken + 1;
    at_end = true;
    failed = true;
  }
  fail (l ∷ ls) r = record r {
    current_line = r.current_line + 2;
    pointer_line = r.current_line + 1;
    taken = r.taken + 2;
    failed = true;
  }

  abbrev pub scan_line : {L : Type 0} → Option A → List L → (Scan A → Scan A) → Scan A → Scan A
  scan_line none ls next r = fail ls r
  scan_line (some a) ls next r =
      if (accept a r).records_to_read == 0 then accept a r else next (accept a r)

  -- `while line != b''`, over the lines that the open file has left.
  unfoldable pub scan : {L : Type 0} → (L → Option A) → List L → Scan A → Scan A
  scan decode [] r = record r { at_end = true }
  scan decode (l ∷ ls) r = scan_line (decode l) ls (scan decode ls) r

abbrev pub or_empty : {L : Type 0} → Option (List L) → List L
or_empty none = []
or_empty (some ls) = ls

-- `get_next_file`
unfoldable pub get_next_file : ℕ → List ℕ → Option ℕ
get_next_file f [] = none
get_next_file f (g ∷ []) = none
get_next_file f (g ∷ h ∷ fs) =
    let rest = get_next_file f (h ∷ fs) in if g == f then some h else rest

abbrev pub position : Option ℕ → ℕ
position none = 0
position (some n) = n

-- The test after the inner loop.
abbrev pub tries_next : {A : Type 0} → Settings → Scan A → Bool
tries_next c r =
    leb r.current_line c.max_records_per_file
    || (r.at_end && leb (c.max_records_per_file - 1) r.current_line)

-- The data files before the first that is one of the two; all but the last where none is.
unfoldable pub processed_files : ℕ → ℕ → List ℕ → List ℕ
processed_files f g [] = []
processed_files f g (h ∷ []) = []
processed_files f g (h ∷ i ∷ fs) =
    let rest = processed_files f g (i ∷ fs) in if (h == f) || (h == g) then [] else h ∷ rest

module _ {L A : Type 0} where
  abbrev pub current_pos : FileStorage L A → Option Pointer → Pointer
  current_pos s none = s.new_pos
  current_pos s (some p) = p

  unfoldable pub delete_read_file : ℕ → FileStorage L A → FileStorage L A
  delete_read_file f s = record s {
    folder =
        if exists f s.folder && ltb 1 (length s.data_files)
        then remove_file f s.folder
        else s.folder;
    data_files = if has_file f s.data_files then remove_data_file f s.data_files else s.data_files;
  }

  abbrev pub open_file : Option (List L) → FileStorage L A → Bool × FileStorage L A
  open_file none s = (false, s)
  open_file (some ls) s =
      (true, record s { buffered_reader = some (first_position s.new_pos.line ls) })

  abbrev pub open_unless : Option ℕ → FileStorage L A → Bool × FileStorage L A
  open_unless (some n) s = (true, s)
  open_unless none s =
      open_file (lines_of s.new_pos.file s.folder)
        (record s { data_files = add_data_file s.new_pos.file s.data_files })

  -- `get_or_init_buffered_reader(new_pos)`: false where the file is missing and it raises.
  unfoldable pub get_or_init_buffered_reader : FileStorage L A → Bool × FileStorage L A
  get_or_init_buffered_reader s = open_unless s.buffered_reader s

  -- The inner loop of `read` on the open file, and what it leaves in the reader.
  unfoldable pub read_lines : (L → Option A) → ℕ → FileStorage L A → Scan A
  read_lines decode left s =
      scan decode (drop (position s.buffered_reader) (or_empty (lines_of s.new_pos.file s.folder)))
        (record {
          batch = s.current_batch;
          records_to_read = left;
          current_line = s.new_pos.line;
          pointer_line = s.new_pos.line;
          taken = position s.buffered_reader;
          at_end = false;
          failed = false;
        })

  unfoldable pub after_lines : Scan A → FileStorage L A → FileStorage L A
  after_lines r s =
      let pos : Pointer = record { file = s.new_pos.file; line = r.pointer_line } in
      record s {
        current_batch = r.batch;
        new_pos = pos;
        buffered_reader = some r.taken;
        state_file = if r.failed then holds pos else s.state_file;
      }

  -- The reader moves to the next file, and deletes that in which the batch began.
  unfoldable pub move_to : ℕ → FileStorage L A → FileStorage L A
  move_to next s =
      let previous : Pointer = current_pos s s.old_pos in
      let s' : FileStorage L A =
        delete_read_file previous.file (record s { buffered_reader = none }) in
      (get_or_init_buffered_reader
        (record s' { new_pos = record { file = next; line = 0 }; old_pos = some previous })).1

  abbrev pub continue_read :
      (ℕ → FileStorage L A → Option (FileStorage L A))
      → Settings
      → Scan A
      → Option ℕ
      → FileStorage L A
      → Option (FileStorage L A)
  continue_read loop c r none s =
      if tries_next c r then some s else if r.at_end then some s else loop r.records_to_read s
  continue_read loop c r (some next) s =
      if tries_next c r
      then loop r.records_to_read (move_to next s)
      else if r.at_end
      then some s
      else loop r.records_to_read s

  -- One pass of the outer loop. With a reader that cannot be opened, `read` logs and tries again
  -- without end: none.
  abbrev pub pass :
      (ℕ → FileStorage L A → Option (FileStorage L A))
      → (L → Option A)
      → Settings
      → ℕ
      → Bool × FileStorage L A
      → Option (FileStorage L A)
  pass loop decode c left (false, s) = none
  pass loop decode c left (true, s) =
      let r : Scan A = read_lines decode left s in
      continue_read loop c r (get_next_file s.new_pos.file s.data_files) (after_lines r s)

  -- `while records_to_read > 0`, on fuel: none where the fuel ends too.
  unfoldable pub read_loop :
      (L → Option A) → Settings → ℕ → ℕ → FileStorage L A → Option (FileStorage L A)
  read_loop decode c zero left s = none
  read_loop decode c (suc fuel) zero s = some s
  read_loop decode c (suc fuel) (suc left) s =
      pass (read_loop decode c fuel) decode c (suc left) (get_or_init_buffered_reader s)

  -- `read`: what it returns is current_batch, and one that was not discarded is returned again.
  abbrev pub read_unless :
      List A → (L → Option A) → Settings → ℕ → FileStorage L A → Option (FileStorage L A)
  read_unless (a ∷ rest) decode c fuel s = some s
  read_unless [] decode c fuel s = read_loop decode c fuel c.max_read_records_count s

  unfoldable pub get_event_pack :
      (L → Option A) → Settings → ℕ → FileStorage L A → Option (FileStorage L A)
  get_event_pack decode c fuel s = read_unless s.current_batch decode c fuel s

  unfoldable pub delete_all : List ℕ → FileStorage L A → FileStorage L A
  delete_all [] s = s
  delete_all (f ∷ fs) s = delete_all fs (delete_read_file f s)

  -- `discard_batch`, which is `event_pack_processing_done`.
  unfoldable pub discard_batch : Settings → FileStorage L A → FileStorage L A
  discard_batch c s =
      let previous : Pointer = current_pos s s.old_pos in
      delete_all (processed_files previous.file s.new_pos.file s.data_files) (record s {
        buffered_reader =
            if leb (c.max_records_per_file - 1) previous.line then none else s.buffered_reader;
        state_file = holds s.new_pos;
        old_pos = none;
        current_batch = [];
      })
