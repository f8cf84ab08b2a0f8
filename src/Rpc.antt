-- ===== src/Rpc.antt =====
-- novena_gateway/gateway/rpc_handler.py: the dispatch of commands from the cloud, around the governed
-- command guard, and the commands that write and read a field device.
pub mod Response
pub mod Device
pub mod Dispatch
mod Tests
