-- ===== src/Storage.antt =====
-- novena_gateway/storage: the event storages between the connectors and the publisher.
pub mod Memory
pub mod File
pub mod Buffer
pub mod Sqlite
