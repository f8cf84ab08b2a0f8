-- ===== src/Storage/File/Extends.antt =====
-- How the creation of a file and the write of a record extend the folder.
use novena_gateway.Common.{
  ℕ, ◌≤◌, ◌<◌, ◌≡◌, refl, sym, ap, ◌∙◌, inl, inr, true, some, List, [], ◌∷◌, ◌++◌, arith,
  Bool-cases, is_some, ltb, ltb→lt,
}
use mathlib.Core.Path.{subst}
use mathlib.Core.List.{append_assoc, append-nil}
use novena_gateway.Storage.File.{Folder, lines_of, exists, create_file, append_line}

module _ {L : Type 0} where
  -- The records of all data files, in the order of the names.
  abbrev pub lines : Folder L → List L
  lines [] = []
  lines ((f, ls) ∷ d) = ls ++ lines d

  -- Each name is below the given one.
  abbrev pub Below : ℕ → Folder L → Type 0
  Below f [] = Unit {0}
  Below f ((g, ls) ∷ d) = (g < f) × Below f d

  lines-append : (d e : Folder L) → lines (d ++ e) ≡ lines d ++ lines e
  lines-append [] e = refl
  lines-append ((f, ls) ∷ d) e =
      ap (λ t. ls ++ t) (lines-append d e) ∙ sym (append_assoc ls (lines d) (lines e))

  lines-last : (f : ℕ) (d : Folder L) (ls : List L) → lines (d ++ (f, ls) ∷ []) ≡ lines d ++ ls
  lines-last f d ls = lines-append d ((f, ls) ∷ []) ∙ ap (λ t. lines d ++ t) (append-nil ls)

  create_file-new : (f : ℕ) (d : Folder L) → Below f d → create_file f d ≡ d ++ (f, []) ∷ []
  unfolding create_file
  create_file-new f [] h = refl
  create_file-new f ((g, ls) ∷ d) (lower, h) = ground (arith, create_file-new f d h)

  create_file-last :
      (f : ℕ) (d : Folder L) (ls : List L)
      → Below f d
      → create_file f (d ++ (f, ls) ∷ []) ≡ d ++ (f, ls) ∷ []
  unfolding create_file
  create_file-last f [] ls h = ground arith
  create_file-last f ((g, ks) ∷ d) ls (lower, h) = ground (arith, create_file-last f d ls h)

  append_line-last :
      (f : ℕ) (l : L) (d : Folder L) (ls : List L)
      → Below f d
      → append_line f l (d ++ (f, ls) ∷ []) ≡ d ++ (f, ls ++ l ∷ []) ∷ []
  unfolding append_line
  append_line-last f l [] ls h = ground arith
  append_line-last f l ((g, ks) ∷ d) ls (lower, h) = ground (arith, append_line-last f l d ls h)

  lines_of-last :
      (f : ℕ) (d : Folder L) (ls : List L) → Below f d → lines_of f (d ++ (f, ls) ∷ []) ≡ some ls
  unfolding lines_of
  lines_of-last f [] ls h = ground arith
  lines_of-last f ((g, ks) ∷ d) ls (lower, h) = ground (arith, lines_of-last f d ls h)

  Below-append :
      (f g : ℕ) (d : Folder L) (ls : List L) → f < g → Below f d → Below g (d ++ (f, ls) ∷ [])
  Below-append f g [] ls lt h = (lt, tt)
  Below-append f g ((e, ks) ∷ d) ls lt (lower, h) = (omega arith, Below-append f g d ls lt h)

  -- The file f is the last of the folder.
  pub record Writing (d : Folder L) (f : ℕ) : Type 0 where
    pub before : Folder L
    pub records : List L
    pub split : d ≡ before ++ (f, records) ∷ []
    pub newest : Below f before

  -- A change of the folder after which the file f' is the last, and which adds records at the end.
  pub record Extends (d d' : Folder L) (f' now : ℕ) (added : List L) : Type 0 where
    pub writing : Writing d' f'
    pub not_after : f' ≤ now
    pub appended : lines d' ≡ lines d ++ added

  pub Extends-refl : (d : Folder L) (f now : ℕ) → Writing d f → f ≤ now → Extends d d f now []
  Extends-refl d f now w le = record {
    writing = w;
    not_after = le;
    appended = sym (append-nil (lines d));
  }

  pub Extends-trans :
      (d d' d'' : Folder L) (f' f'' now : ℕ) (added added' : List L)
      → Extends d d' f' now added
      → Extends d' d'' f'' now added'
      → Extends d d'' f'' now (added ++ added')
  Extends-trans d d' d'' f' f'' now added added' e e' = record {
    writing = e'.writing;
    not_after = e'.not_after;
    appended = e'.appended ∙ ap (λ t. t ++ added') e.appended ∙ append_assoc (lines d) added added';
  }

  pub Writing-exists : (d : Folder L) (f : ℕ) → Writing d f → exists f d ≡ true
  Writing-exists d f w =
      ap (exists f) w.split ∙ ap is_some (lines_of-last f w.before w.records w.newest)

  pub append_line-Extends :
      (d : Folder L) (f now : ℕ) (l : L)
      → Writing d f
      → f ≤ now
      → Extends d (append_line f l d) f now (l ∷ [])
  append_line-Extends d f now l w le = record {
    writing = record {
      before = w.before;
      records = w.records ++ l ∷ [];
      split = ap (append_line f l) w.split ∙ append_line-last f l w.before w.records w.newest;
      newest = w.newest;
    };
    not_after = le;
    appended =
        ap (λ t. lines (append_line f l t)) w.split
        ∙ ap lines (append_line-last f l w.before w.records w.newest)
        ∙ lines-last f w.before (w.records ++ l ∷ [])
        ∙ sym (append_assoc (lines w.before) w.records (l ∷ []))
        ∙ ap (λ t. t ++ l ∷ []) (sym (ap lines w.split ∙ lines-last f w.before w.records));
  }

  create_file-later :
      (d : Folder L) (f now : ℕ) → Writing d f → f < now → Extends d (create_file now d) now now []
  create_file-later d f now w lt =
      let created : create_file now d ≡ d ++ (now, []) ∷ [] =
        create_file-new now d
          (subst (Below now) (sym w.split) (Below-append f now w.before w.records lt w.newest)) in
      record {
        writing = record {
          before = d;
          records = [];
          split = created;
          newest =
              subst (Below now) (sym w.split) (Below-append f now w.before w.records lt w.newest);
        };
        not_after = omega arith;
        appended = ap lines created ∙ lines-last now d [];
      }

  create_file-same : (d : Folder L) (f : ℕ) → Writing d f → Extends d (create_file f d) f f []
  create_file-same d f w =
      subst (λ t. Extends d t f f [])
        (w.split
          ∙ sym (create_file-last f w.before w.records w.newest)
          ∙ ap (create_file f) (sym w.split))
        (Extends-refl d f f w (omega arith))

  pub create_file-Extends :
      (d : Folder L) (f now : ℕ) → Writing d f → f ≤ now → Extends d (create_file now d) now now []
  create_file-Extends d f now w le = elim (Bool-cases (ltb f now)) [
    | inl later ↦ create_file-later d f now w (ltb→lt f now later)
    | inr same ↦
        subst (λ n. Extends d (create_file n d) n n []) (ground arith) (create_file-same d f w)
  ]
