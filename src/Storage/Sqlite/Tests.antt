-- ===== src/Storage/Sqlite/Tests.antt =====
-- The theorem on old rows at a concrete input.
use novena_gateway.Common.{◌≡◌, true, false, List, [], ◌∷◌, ◌++◌, arith}
use novena_gateway.Storage.Sqlite.{Row, SqliteStorage}
use novena_gateway.Storage.Sqlite.Expiry.{Pass, run_all, expired_stay}

abbrev old_row : Row
old_row = record { id = 1; timestamp = 5; message = "old" }

-- The table was last cleaned at the time 1000; the row is from the time 5.
abbrev cleaned : SqliteStorage
cleaned = record {
  settings = record {
    max_read_records_count = 50;
    batch_size = 50;
    messages_ttl_check_in_hours = 3600;
  };
  messages = old_row ∷ [];
  last_id = 1;
  write_queue = "new" ∷ [];
  next_batch = [];
  can_prepare_new_batch = true;
  delete_time_point = 0;
  last_msg_check = 1000;
  stopped = false;
}

abbrev pass : Pass
pass = record { now = 5000; oldest = 4000; most = 10 }

expired_stay_example :
    (new : List Row) × ((run_all (pass ∷ []) cleaned).messages ≡ cleaned.messages ++ new)
expired_stay_example = expired_stay (pass ∷ []) cleaned (omega arith, tt)
