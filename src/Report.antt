-- ===== src/Report.antt =====
-- novena_gateway/gateway/report_strategy: which datapoints are sent at once, which with the next
-- period, and which not at all.
pub mod Cache
pub mod Filter
pub mod Period
