-- ===== src/Storage/File/Dropped.antt =====
-- The records that a read of the file storage never hands out.
use novena_gateway.Common.{
  ℕ, suc, ◌≤◌, ◌<◌, ◌≡◌, refl, sym, ap, ◌∙◌, Bool, true, false, ◌&&◌, Option, none, some, List, [],
  ◌∷◌, ◌++◌, length, drop, leb, ltb, map, arith, if◌then◌else◌,
}
use mathlib.Core.Path.{subst}
use mathlib.Core.List.{map-append}
use novena_gateway.Storage.File.{
  Settings, StateFile, FileStorage, Folder, lines_of, remove_file, add_data_file, exists,
}
use novena_gateway.Storage.File.Scanned.{drop-skip_lines, drop-map, Full, scan-Full, scan_short}
use novena_gateway.Storage.File.Reader.{
  Scan, first_position, scan, or_empty, get_next_file, tries_next, delete_read_file, open_file,
  get_or_init_buffered_reader, read_lines, after_lines, move_to, current_pos, continue_read, pass,
  read_loop, get_event_pack,
}

if_same : {A : Type 0} (b : Bool) (a : A) → (if b then a else a) ≡ a
if_same true a = refl
if_same false a = refl

next-several : (f : ℕ) (fs : List ℕ) {g : ℕ} → get_next_file f fs ≡ some g → 1 < length fs
unfolding get_next_file
next-several f [] h = cc
next-several f (a ∷ []) h = cc
next-several f (a ∷ b ∷ fs) h = omega arith

module _ {L A : Type 0} where
  stays :
      (loop : ℕ → FileStorage L A → Option (FileStorage L A)) (c : Settings) (r : Scan A)
      (s : FileStorage L A)
      → r.at_end ≡ true
      → continue_read loop c r none s ≡ some s
  stays loop c r s h =
      ap (λ b. if tries_next c r then some s else (if b then some s else loop r.records_to_read s))
        h
      ∙ if_same (tries_next c r) (some s)

  moves :
      (loop : ℕ → FileStorage L A → Option (FileStorage L A)) (c : Settings) (r : Scan A) (next : ℕ)
      (s : FileStorage L A)
      → r.current_line ≤ c.max_records_per_file
      → continue_read loop c r (some next) s ≡ loop r.records_to_read (move_to next s)
  moves loop c r next s h =
      let fits : leb r.current_line c.max_records_per_file ≡ true = ground arith in simp fits refl

  -- What the move to another file keeps.
  record Moved (s s' : FileStorage L A) (next : ℕ) : Type 0 where
    batch : s'.current_batch ≡ s.current_batch
    at_start : s'.new_pos ≡ record { file = next; line = 0 }
    folder : s'.folder ≡ s.folder

  open_file-Moved :
      (o : Option (List L)) (s : FileStorage L A) (next : ℕ)
      → s.new_pos ≡ record { file = next; line = 0 }
      → Moved s (open_file o s).1 next
  open_file-Moved none s next h = record { batch = refl; at_start = h; folder = refl }
  open_file-Moved (some ls) s next h = record { batch = refl; at_start = h; folder = refl }

  move_to-Moved :
      (s : FileStorage L A) (next : ℕ)
      → Moved (delete_read_file (current_pos s s.old_pos).file s) (move_to next s) next
  unfolding move_to get_or_init_buffered_reader delete_read_file
  move_to-Moved s next =
      let m = open_file-Moved _ _ next refl in
      record { batch = m.batch; at_start = m.at_start; folder = m.folder }

  -- A storage whose reader is closed and stands at the line n of the file f, with no batch out.
  abbrev pub standing : Folder L → StateFile → List ℕ → ℕ → ℕ → Bool → ℕ → ℕ → FileStorage L A
  standing d state files current count stopped f n = record {
    folder = d;
    state_file = state;
    data_files = files;
    current_file = current;
    current_file_records_count = count;
    current_batch = [];
    buffered_reader = none;
    new_pos = record { file = f; line = n };
    old_pos = none;
    stopped = stopped;
  }

module _ {L A : Type 0} (encode : A → L) (decode : L → Option A)
    (decode-encode : (a : A) → decode (encode a) ≡ some a) where
  module _ (c : Settings) (d : Folder L) (state : StateFile) (files : List ℕ) (current count : ℕ)
      (stopped : Bool) (f : ℕ) where
    abbrev opened : ℕ → List L → FileStorage L A
    opened n ls = record (standing d state files current count stopped f n) {
      data_files = add_data_file f files;
      buffered_reader = some (first_position n ls);
    }

    -- The first pass of a read: what it scans, and how it goes on.
    first_pass :
        (n fuel m : ℕ) (ls : List L) (next : Option ℕ)
        → c.max_read_records_count ≡ suc m
        → lines_of f d ≡ some ls
        → get_next_file f (add_data_file f files) ≡ next
        → let r = read_lines decode (suc m) (opened n ls) in
          get_event_pack decode c (suc fuel) (standing d state files current count stopped f n)
          ≡ continue_read (read_loop decode c fuel) c r next (after_lines r (opened n ls))
    unfolding get_event_pack read_loop get_or_init_buffered_reader read_lines get_next_file
        after_lines
    first_pass n fuel m ls next limit held further =
        let st : FileStorage L A = standing d state files current count stopped f n in
        let r : Scan A = read_lines decode (suc m) (opened n ls) in
        ap (λ k. read_loop decode c (suc fuel) k st) limit
        ∙ ap
            (λ o.
              pass (read_loop decode c fuel) decode c (suc m)
                (open_file o (record st { data_files = add_data_file f files })))
            held
        ∙ ap (λ o. continue_read (read_loop decode c fuel) c r o (after_lines r (opened n ls)))
            further

    abbrev fresh_scan : ℕ → ℕ → ℕ → Scan A
    fresh_scan left n taken = record {
      batch = [];
      records_to_read = left;
      current_line = n;
      pointer_line = n;
      taken = taken;
      at_end = false;
      failed = false;
    }

    lines_scanned :
        (left n : ℕ) (ls : List L)
        → lines_of f d ≡ some ls
        → read_lines decode left (opened n ls)
          ≡ scan decode (drop (first_position n ls) ls) (fresh_scan left n (first_position n ls))
    unfolding read_lines
    lines_scanned left n ls held =
        ap
          (λ o.
            scan decode (drop (first_position n ls) (or_empty o))
              (fresh_scan left n (first_position n ls)))
          held

    rest_scanned :
        (left n : ℕ) (es : List A)
        → lines_of f d ≡ some (map encode es)
        → read_lines decode left (opened (suc n) (map encode es))
          ≡ scan decode
              (map encode (drop (suc (suc n)) es))
              (fresh_scan left (suc n) (first_position (suc n) (map encode es)))
    unfolding first_position
    rest_scanned left n es held =
        lines_scanned left (suc n) (map encode es) held
        ∙ ap
            (λ ls.
              scan decode ls (fresh_scan left (suc n) (first_position (suc n) (map encode es))))
            (drop-skip_lines (suc n) (map encode es) ∙ drop-map encode (suc (suc n)) es)

    pack_scanned :
        (x : A) (xs rest : List A)
        → lines_of f d ≡ some (map encode (x ∷ xs ++ rest))
        → Full
            (fresh_scan (suc (length xs)) 0 0)
            (read_lines decode (suc (length xs)) (opened 0 (map encode (x ∷ xs ++ rest))))
            (x ∷ xs)
    unfolding first_position
    pack_scanned x xs rest held =
        subst (λ q. Full (fresh_scan (suc (length xs)) 0 0) q (x ∷ xs))
          (sym (
            lines_scanned (suc (length xs)) 0 _ held
            ∙ ap (λ ls. scan decode ls (fresh_scan (suc (length xs)) 0 0))
                (map-append encode (x ∷ xs) rest)))
          (scan-Full encode decode decode-encode x xs (map encode rest)
            (fresh_scan (suc (length xs)) 0 0) refl)

    -- A reader that is closed on the line n + 1 of the last data file, with no batch out, has read
    -- n + 1 records. Where all lines are encoded records and those after the first n + 2 fit in a
    -- pack, the next read returns exactly these: the record n + 2 is in no pack.
    pub reopened_skips :
        (n fuel m : ℕ) (es : List A)
        → c.max_read_records_count ≡ suc m
        → lines_of f d ≡ some (map encode es)
        → length (drop (suc (suc n)) es) ≤ m
        → get_next_file f (add_data_file f files) ≡ none
        → (s : FileStorage L A) × (get_event_pack decode c
              (suc fuel)
              (standing d state files current count stopped f (suc n))
            ≡ some s)
          × (s.current_batch ≡ drop (suc (suc n)) es)
    unfolding after_lines
    reopened_skips n fuel m es limit held fits last =
        let start : FileStorage L A = opened (suc n) (map encode es) in
        let r : Scan A = read_lines decode (suc m) start in
        let e = rest_scanned (suc m) n es held in
        let (batch, ended) =
          scan_short encode decode decode-encode (drop (suc (suc n)) es)
            (fresh_scan (suc m) (suc n) _) (omega arith) in
        (
          after_lines r start,
          first_pass (suc n) fuel m (map encode es) none limit held last
              ∙ stays (read_loop decode c fuel) c r (after_lines r start)
                  (ap Scan.at_end e ∙ ended),
          ap Scan.batch e ∙ batch,
        )

    -- A reader that is closed at the start of a data file, with no batch out, whose file holds encoded
    -- records, at least as many as a pack, which is not empty and not larger than a full file, and
    -- after which there is a further data file: one read returns a pack of the first records, removes
    -- the file with all that it holds beyond them, and stands at the start of the next file.
    pub moved_drops :
        (fuel next : ℕ) (x : A) (xs rest : List A)
        → c.max_read_records_count ≡ length (x ∷ xs)
        → length (x ∷ xs) ≤ c.max_records_per_file
        → lines_of f d ≡ some (map encode (x ∷ xs ++ rest))
        → get_next_file f (add_data_file f files) ≡ some next
        → (s : FileStorage L A) × (get_event_pack decode c
              (suc (suc fuel))
              (standing d state files current count stopped f 0)
            ≡ some s)
          × (s.current_batch ≡ x ∷ xs)
          × (s.new_pos ≡ record { file = next; line = 0 })
          × (s.folder ≡ remove_file f d)
    unfolding read_loop after_lines delete_read_file
    moved_drops fuel next x xs rest limit small held further =
        let start : FileStorage L A = opened 0 (map encode (x ∷ xs ++ rest)) in
        let r : Scan A = read_lines decode (suc (length xs)) start in
        let full = pack_scanned x xs rest held in
        let moved = move_to-Moved (after_lines r start) next in
        let removes : (exists f d && ltb 1 (length (add_data_file f files))) ≡ true =
          ground (arith, held, next-several f (add_data_file f files) further) in
        (
          move_to next (after_lines r start),
          first_pass 0 (suc fuel) (length xs) _ (some next) limit held further
              ∙ moves (read_loop decode c (suc fuel)) c r next (after_lines r start)
                  (omega (arith, full.counted))
              ∙ ap (λ k. read_loop decode c (suc fuel) k (move_to next (after_lines r start)))
                  full.none_left,
          moved.batch ∙ full.batch,
          moved.at_start,
          moved.folder ∙ ap (λ b. if b then remove_file f d else d) removes,
        )
