-- ===== src/Storage/File/Written.antt =====
-- What the writes of the file storage leave in the folder.
use novena_gateway.Common.{
  ℕ, ◌≤◌, ◌≡◌, sym, ap, ◌∙◌, inl, inr, Bool, true, false, not, ◌||◌, List, [], ◌∷◌, ◌++◌, length,
  leb, map, arith, Bool-cases,
}
use mathlib.Core.List.{append_assoc, append-nil, map-append}
use novena_gateway.Storage.File.{Settings, FileStorage, exists}
use novena_gateway.Storage.File.Writer.{create_datafile, ready_file, append_record, write, put}
use novena_gateway.Storage.File.Extends.{
  lines, Writing, Extends, Extends-refl, Extends-trans, Writing-exists, append_line-Extends,
  create_file-Extends,
}

module _ {L A : Type 0} (encode : A → L) (c : Settings) where
  ready_file-Extends :
      (s : FileStorage L A) (now : ℕ)
      → Writing s.folder s.current_file
      → s.current_file ≤ now
      → Extends s.folder (ready_file c now s).folder (ready_file c now s).current_file now []
  unfolding ready_file create_datafile
  ready_file-Extends s now w le =
      elim (Bool-cases (
        leb c.max_records_per_file s.current_file_records_count
        || not (exists s.current_file s.folder))) [
          | inl new ↦ rw new (create_file-Extends s.folder s.current_file now w le)
          | inr old ↦ rw old (Extends-refl s.folder s.current_file now w le)
        ]

  append_record-Extends :
      (s : FileStorage L A) (now : ℕ) (l : L)
      → Writing s.folder s.current_file
      → s.current_file ≤ now
      → Extends s.folder
          (append_record now l s).folder
          (append_record now l s).current_file
          now
          (l ∷ [])
  unfolding append_record
  append_record-Extends s now l w le =
      rw (Writing-exists s.folder s.current_file w)
        (append_line-Extends s.folder s.current_file now l w le)

  abbrev pub accepted_by : A → Bool → List A
  accepted_by event true = event ∷ []
  accepted_by event false = []

  put-Extends :
      (s : FileStorage L A) (now : ℕ) (event : A)
      → Writing s.folder s.current_file
      → s.current_file ≤ now
      → let (taken, s') = put encode c now event s in
        Extends s.folder s'.folder s'.current_file now (map encode (accepted_by event taken))
  unfolding put write
  put-Extends s now event w le = elim (Bool-cases s.stopped) [
    | inl stopped ↦ simp stopped (Extends-refl s.folder s.current_file now w le)
    | inr open_still ↦ elim (Bool-cases (leb (length s.data_files) c.max_files_count)) [
      | inl room ↦
          let r = ready_file-Extends s now w le in
          simp (open_still, room)
            (Extends-trans s.folder (ready_file c now s).folder _ (ready_file c now s).current_file
              _ now [] (encode event ∷ []) r
              (append_record-Extends (ready_file c now s) now (encode event) r.writing r.not_after))
      | inr full ↦ simp (open_still, full) (Extends-refl s.folder s.current_file now w le)
    ]
  ]

  -- Puts at the times of the clock, with the events that were accepted.
  unfoldable pub put_all : List (ℕ × A) → FileStorage L A → List A × FileStorage L A
  put_all [] s = ([], s)
  put_all ((now, event) ∷ rest) s =
      let (taken, s') = put encode c now event s in
      let (accepted, s'') = put_all rest s' in (accepted_by event taken ++ accepted, s'')

  -- The clock does not go back.
  abbrev pub Rising : ℕ → List (ℕ × A) → Type 0
  Rising from [] = Unit {0}
  Rising from ((now, event) ∷ rest) = (from ≤ now) × Rising now rest

  Rising-from : (f g : ℕ) (es : List (ℕ × A)) → f ≤ g → Rising g es → Rising f es
  Rising-from f g [] le h = h
  Rising-from f g ((now, event) ∷ rest) le (later, h) = (omega arith, h)

  -- Where the current file is the last of the folder and the clock does not go back behind it, any
  -- number of puts leaves in the data files, read in the order of their names, the records that were
  -- there and then those of the accepted events in the order of the puts, and nothing else.
  pub put_all-lines :
      (es : List (ℕ × A)) (s : FileStorage L A)
      → Writing s.folder s.current_file
      → Rising s.current_file es
      → let (accepted, s') = put_all es s in lines s'.folder ≡ lines s.folder ++ map encode accepted
  unfolding put_all
  put_all-lines [] s w h = sym (append-nil (lines s.folder))
  put_all-lines ((now, event) ∷ rest) s w (later, h) =
      let (taken, s') = put encode c now event s in
      let e = put-Extends s now event w later in
      put_all-lines rest s' e.writing (Rising-from s'.current_file now rest e.not_after h)
      ∙ ap (λ t. t ++ map encode (put_all rest s').0) e.appended
      ∙ append_assoc (lines s.folder) (map encode (accepted_by event taken)) _
      ∙ ap (λ t. lines s.folder ++ t) (sym (map-append encode (accepted_by event taken) _))
