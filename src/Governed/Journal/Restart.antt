-- ===== src/Governed/Journal/Restart.antt =====
-- What a restart of the gateway finds in the file of `DurableCommandJournal`.
use novena_gateway.Common.{String, ◌≡◌, refl, Option, none, some, [], ◌∷◌, map, string_eq}
use novena_gateway.Common.Int.{ℤ, pos}
use novena_gateway.Common.Dict.{Dict, lookup}
use novena_gateway.Governed.Journal.{
  key_eq, whole, File, or_default, as_name, load, open_journal, max_sequence,
}

not_named : (n : ℤ) (d : Dict String ℤ) → lookup (whole n) (map as_name d) ≡ none
unfolding lookup
not_named n [] = refl
not_named n ((s, z) ∷ d) = not_named n d

-- After a restart the highest sequence of a device whose id is a JSON number reads 0, whatever the
-- file holds: the file has the id as a text, and the number is looked up.
pub number_forgotten : (n : ℤ) (f : Option File) → max_sequence (whole n) (open_journal f) ≡ pos 0
unfolding open_journal load max_sequence lookup
number_forgotten n none = refl
number_forgotten n (some f) = rw (not_named n (or_default f.sequences []))
