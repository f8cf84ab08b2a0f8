-- ===== src/Storage/Buffer.antt =====
-- What the MQTT publisher needs of an event storage (novena_gateway/storage/event_storage.py): the
-- operations, what the storage owes, and their laws. A storage may work in the background, and its work
-- is quiet where it removes nothing that is owed.
use novena_gateway.Common.{ℕ, ◌≡◌, Bool, true, false, List, [], ◌∷◌, ◌++◌}

abbrev pub accepted_by : {A : Type 0} → A → Bool → List A
accepted_by event true = event ∷ []
accepted_by event false = []

pub record EventStorage (S A : Type 0) : Type 1 where
  pub Work : Type 0
  pub put : A → S → Bool × S
  pub get_event_pack : S → List A × S
  pub event_pack_processing_done : S → S
  pub len : S → ℕ
  pub work : Work → S → S
  pub owed : S → List A
  pub IsQuiet : Work → S → Type 0
  pub IsValid : S → Type 0
  pub IsStorable : A → Type 0
  pub IsOut : S → List A → Type 0
  pub put-IsValid : (e : A) (s : S) → IsStorable e → IsValid s → IsValid (put e s).1
  pub get_event_pack-IsValid : (s : S) → IsValid s → IsValid (get_event_pack s).1
  pub event_pack_processing_done-IsValid :
      (s : S) → IsValid s → IsValid (event_pack_processing_done s)
  pub work-IsValid : (w : Work) (s : S) → IsQuiet w s → IsValid s → IsValid (work w s)
  pub put-owed : (e : A) (s : S) → owed (put e s).1 ≡ owed s ++ accepted_by e (put e s).0
  pub get_event_pack-owed : (s : S) → owed (get_event_pack s).1 ≡ owed s
  pub work-owed : (w : Work) (s : S) → IsQuiet w s → IsValid s → owed (work w s) ≡ owed s
  pub get_event_pack-IsOut : (s : S) → IsValid s → IsOut (get_event_pack s).1 (get_event_pack s).0
  pub put-IsOut : (e : A) (s : S) (pack : List A) → IsOut s pack → IsOut (put e s).1 pack
  pub work-IsOut :
      (w : Work) (s : S) (pack : List A)
      → IsQuiet w s
      → IsValid s
      → IsOut s pack
      → IsOut (work w s) pack
  pub event_pack_processing_done-owed :
      (s : S) (pack : List A)
      → IsValid s
      → IsOut s pack
      → owed s ≡ pack ++ owed (event_pack_processing_done s)
