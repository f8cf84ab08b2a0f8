-- ===== src/Storage/Sqlite.antt =====
-- `Database` and `SQLiteEventStorage` (novena_gateway/storage/sqlite) with one database file, below the
-- limit of its size. The table is its rows in the order of their ids, which is the order in which
-- SQLite scans it. The thread of `run` appears as its steps; a statement that fails is not modelled.
pub mod Rows
pub mod Points
pub mod Selection
pub mod Valid
pub mod Passes
pub mod Buffered
pub mod Expiry
mod Tests
use novena_gateway.Common.{
  ℕ, zero, suc, ◌+◌, ◌-◌, String, Bool, true, false, not, ◌&&◌, List, [], ◌∷◌, ◌++◌, length, take,
  drop, ltb, leb, str_eq, if◌then◌else◌,
}

-- A row of the table messages.
pub record Row : Type 0 where
  pub id : ℕ
  pub timestamp : ℕ
  pub message : String

-- The fields of `StorageSettings` that the operations read.
pub record StorageSettings : Type 0 where
  pub max_read_records_count : ℕ
  pub batch_size : ℕ
  pub messages_ttl_check_in_hours : ℕ

-- The last id that AUTOINCREMENT gave is `last_id`; a delete_time_point of 0 is none, as in Python.
pub record SqliteStorage : Type 0 where
  pub settings : StorageSettings
  pub messages : List Row
  pub last_id : ℕ
  pub write_queue : List String
  pub next_batch : List Row
  pub can_prepare_new_batch : Bool
  pub delete_time_point : ℕ
  pub last_msg_check : ℕ
  pub stopped : Bool

-- `put`
unfoldable pub put : String → SqliteStorage → Bool × SqliteStorage
put message s =
    if s.stopped
    then (false, s)
    else (true, record s { write_queue = s.write_queue ++ message ∷ [] })

-- `INSERT INTO messages`, of a batch at one time.
unfoldable pub insert_rows : ℕ → ℕ → List String → List Row
insert_rows last now [] = []
insert_rows last now (m ∷ ms) =
    record { id = suc last; timestamp = now; message = m } ∷ insert_rows (suc last) now ms

-- `process` after its clean-up, where `most` messages were collected before the time for that was over.
unfoldable pub write_batch : ℕ → ℕ → SqliteStorage → SqliteStorage
write_batch now most s =
    let n = if leb most s.settings.batch_size then most else s.settings.batch_size in
    let batch = take n s.write_queue in
    record s {
      messages = s.messages ++ insert_rows s.last_id now batch;
      last_id = s.last_id + length batch;
      write_queue = drop n s.write_queue;
    }

-- `DELETE FROM messages WHERE id <= ?`
unfoldable pub delete_to : ℕ → List Row → List Row
delete_to id [] = []
delete_to id (r ∷ rs) = let rest = delete_to id rs in if leb r.id id then rest else r ∷ rest

-- `DELETE FROM messages WHERE timestamp <= ?`
unfoldable pub delete_data_lte : ℕ → List Row → List Row
delete_data_lte ts [] = []
delete_data_lte ts (r ∷ rs) =
    let rest = delete_data_lte ts rs in if leb r.timestamp ts then rest else r ∷ rest

-- The clean-up at the start of `process`: `now - last >= last + check`, without subtraction. The clock
-- of the source counts milliseconds, and `oldest` is now less the days that a message may live.
unfoldable pub clean_up : ℕ → ℕ → SqliteStorage → SqliteStorage
clean_up now oldest s =
    if leb (s.last_msg_check + s.last_msg_check + s.settings.messages_ttl_check_in_hours) now
      && not s.stopped
    then record s { last_msg_check = now; messages = delete_data_lte oldest s.messages }
    else s

abbrev pub data_of : List Row → SqliteStorage → List Row
data_of [] s = take s.settings.max_read_records_count s.messages
data_of (r ∷ rs) s = r ∷ rs

-- `read_data` of an open database: the batch that the thread has prepared, or a new selection.
unfoldable pub read_data : SqliteStorage → List Row
read_data s = if s.stopped then [] else data_of s.next_batch s

abbrev pub is_none : List Row → Bool
is_none [] = true
is_none (r ∷ rs) = false

-- The reading part of `run`.
unfoldable pub prepare : SqliteStorage → SqliteStorage
prepare s =
    if s.can_prepare_new_batch && is_none s.next_batch
    then record s { next_batch = read_data s; can_prepare_new_batch = false }
    else s

abbrev pub is_blank : String → Bool
is_blank m = str_eq m ""

-- `process_event_storage_data`: an empty message is passed over.
unfoldable pub collect_messages : List Row → List String
collect_messages [] = []
collect_messages (r ∷ rs) =
    let rest = collect_messages rs in if is_blank r.message then rest else r.message ∷ rest

-- The delete_time_point after these rows.
unfoldable pub time_point : ℕ → List Row → ℕ
time_point point [] = point
time_point point (r ∷ rs) =
    if is_blank r.message
    then time_point point rs
    else time_point (if ltb point r.id then r.id else point) rs

-- `get_event_pack`
unfoldable pub get_event_pack : SqliteStorage → List String × SqliteStorage
get_event_pack s = if s.stopped then ([], s) else (
  collect_messages (read_data s),
  record s { delete_time_point = time_point s.delete_time_point (read_data s) },
)

-- `event_pack_processing_done`
unfoldable pub event_pack_processing_done : SqliteStorage → SqliteStorage
event_pack_processing_done s = if s.stopped then s else record s {
  messages = delete_to s.delete_time_point s.messages;
  next_batch = [];
  can_prepare_new_batch = true;
}

-- A pass of `run`: a batch is prepared, then the clean-up, then the write.
unfoldable pub run : ℕ → ℕ → ℕ → SqliteStorage → SqliteStorage
run now oldest most s =
    if s.stopped then s else write_batch now most (clean_up now oldest (prepare s))

-- `len`
unfoldable pub len : SqliteStorage → ℕ
len s = length s.write_queue + length s.messages

unfoldable pub stop : SqliteStorage → SqliteStorage
stop s = record s { stopped = true }
