-- ===== src/Storage/Memory.antt =====
-- `MemoryEventStorage` of novena_gateway/storage/memory/memory_event_storage.py.
pub mod Fifo
use novena_gateway.Common.{
  ℕ, zero, suc, Bool, true, false, not, ◌&&◌, Option, none, some, List, [], ◌∷◌, ◌++◌, length, take,
  drop, min, ltb, leb, if◌then◌else◌,
}

pub record Storage (A : Type 0) : Type 0 where
  pub max_records_count : ℕ
  pub read_records_count : ℕ
  pub events_queue : List A
  pub event_pack : List A
  pub stopped : Bool

-- `Queue(n)`: a limit of 0 is none.
abbrev pub is_full : ℕ → ℕ → Bool
is_full zero n = false
is_full (suc m) n = leb (suc m) n

module _ {A : Type 0} where
  unfoldable pub new : ℕ → ℕ → Storage A
  new most per_read = record {
    max_records_count = most;
    read_records_count = per_read;
    events_queue = [];
    event_pack = [];
    stopped = false;
  }

  unfoldable pub put : A → Storage A → Bool × Storage A
  put event s =
      if s.stopped
      then (false, s)
      else if is_full s.max_records_count (length s.events_queue)
      then (false, s)
      else (true, record s { events_queue = s.events_queue ++ event ∷ [] })

  abbrev read : ℕ → List A → Storage A → Storage A
  read n [] s = record s {
    event_pack = take n s.events_queue;
    events_queue = drop n s.events_queue;
  }
  read n (e ∷ es) s = s

  -- `get_event_pack`: a pack that has not been processed is returned again.
  unfoldable pub get_event_pack : Storage A → List A × Storage A
  get_event_pack s =
      let s' : Storage A = read (min s.read_records_count (length s.events_queue)) s.event_pack s in
      (s'.event_pack, s')

  unfoldable pub event_pack_processing_done : Storage A → Storage A
  event_pack_processing_done s = record s { event_pack = [] }

  unfoldable pub stop : Storage A → Storage A
  stop s = record s { stopped = true }

  -- `len`
  unfoldable pub len : Storage A → ℕ
  len s = length s.events_queue
