-- ===== src/Lib.antt =====
-- The parts of the Novena gateway that decide: what a remote command must show before a field device
-- obeys it, which uplink carries the traffic, which datapoint is sent, and what waits for the broker.
--
-- A connector (novena_gateway/connectors) reads devices and yields converted data; the report
-- strategies filter it; the payload formatter prepares it; an event storage keeps it until the MQTT
-- publisher has delivered it. Commands come the other way, through the governed command guard. The
-- network watchdog keeps an uplink, and redaction cleans what leaves as configuration or log.
--
-- Json: the values of json.loads and Python's operations on them. A number is a decimal; the rounding
--   of a decimal to a double and its overflow are not modelled. NaN and the infinities are.
-- Governed: novena_gateway/gateway/governed_commands.py. Journal is DurableCommandJournal with its
--   file, Guard the state of GovernedCommandGuard, its keys, policy and marks, Validate `validate` and
--   `validate_diagnostic`, Prerequisites `enforce_prerequisites`. Cryptography, base64, the printer of
--   JSON and the parser of times are the fields of `Platform`. The file system does not fail, while json.dump
--   may; the locks are not modelled, and a call is one step.
-- ClockHealth: novena_gateway/gateway/clock_health.py, with the answers of timedatectl as arguments.
-- ConnectivityHealth: novena_gateway/gateway/connectivity_health_handler.py, `run_check` over the answers
--   of the system; its thread is not modelled.
-- Setup: novena_gateway/gateway/deployment_setup.py, the guard of signed configuration envelopes with its
--   journal in memory.
-- RemoteConfig: novena_gateway/gateway/remote_config_handler.py. A `Site` is the files and the gateway's
--   fields, Edits the changes of the connectors, Update the handling of a message. What connectors
--   report as they start is a parameter, one answer for each of the two starts.
-- Rpc: novena_gateway/gateway/rpc_handler.py. Dispatch is `_on_rpc_request` up to its thread, Execute the
--   thread's body with its events in order, Device the write and the read of a device, Response what a
--   connector answered. A request and its execution are two steps, between which others may come. The
--   commands themselves are parameters of Execute; that of a Modbus read ends before its own schema.
-- Watchdog: novena_gateway/gateway/network_watchdog_handler.py, one `_check_network` and what it calls.
--   The answers of the system are a `World`. The thread and the reading of routes are not modelled.
-- Report: novena_gateway/gateway/report_strategy. Cache is ReportStrategyDataCache, Filter the decision
--   of ReportStrategyService on a datapoint, Period one round of the thread that reports by period.
-- Storage: novena_gateway/storage. Memory is memory/memory_event_storage.py. File is
--   file/event_storage_files.py with the settings and the pointer, its children Writer, Reader and
--   Start are file/event_storage_writer.py, file/event_storage_reader.py and the constructors. The
--   folder is a value, an open reader the number of lines it has read; base64 and the clock are
--   arguments. A file's name is its number, in the order of numbers with equally many digits. `read`
--   runs on fuel, and one pass of its loop takes one: the theorems on reads hold from the one or two
--   passes on that the read needs. But for a missing file, which `read` retries without end, the file
--   system does not fail.
--   Sqlite is sqlite/database.py and sqlite/sqlite_event_storage.py with one file, as the passes of its
--   thread and the calls of its clients. Buffer is what the publisher needs of a storage.
-- Publisher: novena_gateway/gateway/novena_mqtt_publisher.py over a storage that fills Buffer, which the
--   SQLite storage does. Replay is a turn of `_replay_loop`, Session the callbacks of the connection and
--   the credentials, Release the release from a claim. Run is any order of the steps, with an account of
--   the events. What other threads change while a pack is sent is an argument; the answers of the MQTT
--   client and the success of files and callbacks are arguments too.
-- Redaction: novena_gateway/gateway/redaction.py, `redact_secrets`.
-- Telemetry: ConvertedData of novena_gateway/gateway/entities/converted_data.py with the splitting of
--   large entries, and novena_gateway/gateway/payload_formatter.py.
-- DeviceFilter: novena_gateway/gateway/device_filter.py; `re.fullmatch` is a parameter.
-- Ota: novena_gateway/gateway/ota_security.py, and `_cmd_update_firmware` of rpc_handler.py in Update, with
--   its effects in order. Archive is the test of an archive's entries and of paths. The resolution of a
--   path, tarfile, urllib and the helper are parameters; a staged file can be written and removed.
-- Modbus: novena_gateway/connectors/modbus, the ranges of registers of utils.py and the order and type
--   of registers of bytes_modbus_uplink_converter.py. The loop over a range runs on fuel of one round
--   for each register, and a round takes at least one register.
-- Common: tests, lists, results, integers and dicts that the parts share.
-- Not modelled: the other connectors, the commands of the host, the discovery, the statistics and the
--   wiring of the gateway, which are I/O; a rotation of the SQLite files.
pub mod Common
pub mod Json
pub mod Governed
pub mod Setup
pub mod RemoteConfig
pub mod Rpc
pub mod Watchdog
pub mod Modbus
pub mod Report
pub mod Storage
pub mod Publisher
pub mod ClockHealth
pub mod ConnectivityHealth
pub mod DeviceFilter
pub mod Ota
pub mod Redaction
pub mod Telemetry
mod Tests
