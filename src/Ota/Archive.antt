-- ===== src/Ota/Archive.antt =====
-- `validate_tarball`, `resolve_child_path` and `safe_release_dir` of ota_security.py. The entries of an
-- archive are what tarfile says of them; a path is the list of its parts, and its resolution on the file
-- system is a parameter.
pub mod Contained
use novena_gateway.Common.{
  ℕ, ◌/◌, ◌%◌, String, Bool, true, false, ◌&&◌, ◌||◌, List, [], ◌∷◌, any, ◌==◌, str_eq,
  if◌then◌else◌, Result, ok, err, ◌>>=◌, ◌>>◌, raise_if,
}
use novena_gateway.Json.{codes}
use novena_gateway.Modbus.Range.{split}

-- `tarfile.TarInfo`, by what the source asks of it.
pub record Member : Type 0 where
  pub name : String
  pub is_sym : Bool
  pub is_lnk : Bool
  pub is_dev : Bool
  pub is_fifo : Bool
  pub mode : ℕ

pub data ArchiveError : Type 0 where
  unsafe_path links special_file world_writable escapes : ArchiveError

-- A part of a path, by its codes.
abbrev pub Part : Type 0
Part = List ℕ

abbrev pub is_parent : Part → Bool
is_parent (x ∷ y ∷ []) = x == b'.' && y == b'.'
is_parent _ = false

-- The parts that `PurePosixPath` drops: the empty one and a single dot.
abbrev is_dropped : Part → Bool
is_dropped [] = true
is_dropped (x ∷ []) = x == b'.'
is_dropped _ = false

unfoldable pub kept : List Part → List Part
kept [] = []
kept (p ∷ ps) = let rest = kept ps in if is_dropped p then rest else p ∷ rest

-- `PurePosixPath(name).parts`, without the root.
unfoldable pub parts : String → List Part
unfolding kept split
parts name = kept (split b'/' (codes name))

abbrev pub starts_with_slash : List ℕ → Bool
starts_with_slash [] = false
starts_with_slash (c ∷ cs) = c == b'/'

-- `PurePosixPath(name).is_absolute()`
unfoldable pub is_absolute : String → Bool
is_absolute name = starts_with_slash (codes name)

-- `member.mode & 0o002`
unfoldable pub is_world_writable : ℕ → Bool
is_world_writable mode = mode / 2 % 2 == 1

unfoldable pub validate_member : Member → Result ArchiveError (Unit {0})
validate_member m = do
  raise_if (is_absolute m.name || any is_parent (parts m.name)) unsafe_path
  raise_if (m.is_sym || m.is_lnk) links
  raise_if (m.is_dev || m.is_fifo) special_file
  raise_if (is_world_writable m.mode) world_writable

-- `validate_tarball`, of the archive's members.
unfoldable pub validate_tarball : List Member → Result ArchiveError (Unit {0})
unfolding validate_member
validate_tarball [] = ok tt
validate_tarball (m ∷ ms) = do validate_member m; validate_tarball ms

abbrev pub FilePath : Type 0
FilePath = List String

-- `os.path.commonpath([a, b])`, of two absolute paths.
unfoldable pub commonpath : FilePath → FilePath → FilePath
commonpath [] bs = []
commonpath (a ∷ as_rest) [] = []
commonpath (a ∷ as_rest) (b ∷ bs) =
    let rest = commonpath as_rest bs in if str_eq a b then a ∷ rest else []

unfoldable pub eq_path : FilePath → FilePath → Bool
eq_path [] [] = true
eq_path [] (b ∷ bs) = false
eq_path (a ∷ as_rest) [] = false
eq_path (a ∷ as_rest) (b ∷ bs) = str_eq a b && eq_path as_rest bs

-- `resolve` is `Path(p).expanduser().resolve()`, and `resolve_in` is `(base / name).resolve()`.
module _ (resolve : String → FilePath) (resolve_in : FilePath → String → FilePath) where
  unfoldable pub child_of : FilePath → String → Result ArchiveError FilePath
  unfolding commonpath eq_path
  child_of base filename =
      let candidate = resolve_in base filename in
      if eq_path (commonpath base candidate) base then ok candidate else err escapes

  -- `resolve_child_path`
  unfoldable pub resolve_child_path : String → String → Result ArchiveError FilePath
  unfolding child_of
  resolve_child_path base_dir filename = child_of (resolve base_dir) filename

  -- `safe_release_dir`, of a version that `_normalised_version` accepts; `release` is the name
  -- `novena-gateway-{version}`.
  unfoldable pub safe_release_dir : String → String → Result ArchiveError FilePath
  unfolding child_of
  safe_release_dir install_dir release =
      child_of (resolve_in (resolve install_dir) "releases") release
