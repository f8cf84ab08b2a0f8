-- ===== src/Storage/Sqlite/Buffered.antt =====
-- The SQLite storage as an event storage: what it owes leaves in the order in which it was accepted.
use novena_gateway.Common.{ℕ, ◌<◌, ◌≡◌, String, false}
use novena_gateway.Storage.Buffer.{EventStorage}
use novena_gateway.Storage.Sqlite.{
  SqliteStorage, put, is_blank, get_event_pack, event_pack_processing_done, run, len,
}
use novena_gateway.Storage.Sqlite.Valid.{
  IsValid, IsOut, owed, put-owed, put-IsValid, put-IsOut, get_event_pack-owed,
  get_event_pack-IsValid, get_event_pack-IsOut, done-IsValid, done-owed,
}
use novena_gateway.Storage.Sqlite.Passes.{next_clean_up, run-IsValid, run-owed, run-IsOut}

-- The SQLite storage fills the interface, its thread's passes as the work in the
-- background, which are quiet until a clean-up is due.
abbrev pub sqlite : EventStorage SqliteStorage String
sqlite = record {
  Work = ℕ × ℕ × ℕ;
  put = put;
  get_event_pack = get_event_pack;
  event_pack_processing_done = event_pack_processing_done;
  len = len;
  work = λ (now, oldest, most) s. run now oldest most s;
  IsQuiet = λ (now, oldest, most) s. now < next_clean_up s;
  owed = owed;
  IsValid = IsValid;
  IsStorable = λ e. is_blank e ≡ false;
  IsOut = IsOut;
  put-IsValid = put-IsValid;
  get_event_pack-IsValid = get_event_pack-IsValid;
  event_pack_processing_done-IsValid = done-IsValid;
  work-IsValid = λ (now, oldest, most) s q v. run-IsValid now oldest most s q v;
  put-owed = put-owed;
  get_event_pack-owed = get_event_pack-owed;
  work-owed = λ (now, oldest, most) s q v. run-owed now oldest most s q;
  get_event_pack-IsOut = get_event_pack-IsOut;
  put-IsOut = put-IsOut;
  work-IsOut = λ (now, oldest, most) s pack q v h. run-IsOut now oldest most s q pack v h;
  event_pack_processing_done-owed = λ s pack v h. done-owed s pack h;
}
