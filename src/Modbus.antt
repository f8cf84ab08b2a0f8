-- ===== src/Modbus.antt =====
-- novena_gateway/connectors/modbus: the requests for a range of registers and the decoding of what a
-- device answers.
pub mod Range
pub mod Registers
