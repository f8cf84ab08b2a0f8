-- ===== src/Ota/Archive/Contained.antt =====
-- Where the entries of an accepted archive go, and where a resolved child lies.
use novena_gateway.Common.{
  String, ◌≡◌, refl, true, false, ◌||◌, List, [], ◌∷◌, ◌++◌, any, arith, ok, str_eq, if◌then◌else◌,
  >>-eq-ok, eq_iff,
}
use novena_gateway.Ota.Archive.{
  Member, Part, FilePath, is_parent, parts, is_absolute, is_world_writable, validate_member,
  validate_tarball, commonpath, eq_path, child_of,
}

abbrev pub up : List Part → List Part
up [] = []
up (p ∷ ps) = ps

-- Following parts from a folder, whose parts stand from the innermost outwards: a part `..` goes up.
unfoldable pub follow : List Part → List Part → List Part
follow here [] = here
follow here (p ∷ ps) = if is_parent p then follow (up here) ps else follow (p ∷ here) ps

-- Where an extraction into a folder puts a name.
unfoldable pub location : List Part → String → List Part
unfolding follow
location base name = if is_absolute name then follow [] (parts name) else follow base (parts name)

-- An entry that lands in the folder, is a plain file or folder, and that not everyone may write.
pub record Contained (base : List Part) (m : Member) : Type 0 where
  pub inside : (inner : List Part) × (location base m.name ≡ inner ++ base)
  pub no_link : m.is_sym || m.is_lnk ≡ false
  pub plain : m.is_dev || m.is_fifo ≡ false
  pub guarded : is_world_writable m.mode ≡ false

pub data AllContained (base : List Part) : List Member → Type 0 where
  none_left : AllContained base []
  contained :
      {m : Member} {ms : List Member}
      → Contained base m
      → AllContained base ms
      → AllContained base (m ∷ ms)

follow-inside :
    (base inner ps : List Part)
    → any is_parent ps ≡ false
    → (below : List Part) × (follow (inner ++ base) ps ≡ below ++ base)
unfolding follow
follow-inside base inner [] h = (inner, refl)
follow-inside base inner (p ∷ ps) h =
    let not_up : is_parent p ≡ false = ground arith in
    let (below, e) = follow-inside base (p ∷ inner) ps (ground arith) in
    (below, ground (arith, not_up, e))

validate_member-Contained :
    (base : List Part) (m : Member) → validate_member m ≡ ok tt → Contained base m
unfolding validate_member
validate_member-Contained base m h =
    let relative : is_absolute m.name ≡ false = ground arith in
    let downward : any is_parent (parts m.name) ≡ false = ground arith in
    let (below, e) = follow-inside base [] (parts m.name) downward in
    record {
      inside = (below, unfold location in rw relative e);
      no_link = ground arith;
      plain = ground arith;
      guarded = ground arith;
    }

-- Each entry of an archive that is accepted lands in the folder of the extraction, whichever it is, is
-- neither a link nor a special file, and is not writable by everyone.
pub validate_tarball-Contained :
    (base : List Part) (ms : List Member) → validate_tarball ms ≡ ok tt → AllContained base ms
unfolding validate_tarball
validate_tarball-Contained base [] h = none_left
validate_tarball-Contained base (m ∷ ms) h =
    let (first, rest) = >>-eq-ok _ _ h in
    contained (validate_member-Contained base m first) (validate_tarball-Contained base ms rest)

under_common :
    (base candidate : FilePath)
    → eq_path (commonpath base candidate) base ≡ true
    → (inner : FilePath) × (candidate ≡ base ++ inner)
unfolding eq_path commonpath
under_common [] candidate h = (candidate, refl)
under_common (a ∷ as_rest) [] h = cc
under_common (a ∷ as_rest) (b ∷ bs) h =
    let same : str_eq a b ≡ true = ground arith in
    let (inner, e) = under_common as_rest bs (ground arith) in (inner, cc ((eq_iff a b).0 same, e))

-- A child that is resolved without an error lies under its folder.
pub child_of-under :
    (resolve : String → FilePath) (resolve_in : FilePath → String → FilePath) (base : FilePath)
    (name : String) {p : FilePath}
    → child_of resolve resolve_in base name ≡ ok p
    → (inner : FilePath) × (p ≡ base ++ inner)
unfolding child_of
child_of-under resolve resolve_in base name h =
    let (inner, e) = under_common base (resolve_in base name) (ground arith) in
    (inner, ground (arith, e, h))
