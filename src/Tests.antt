-- ===== src/Tests.antt =====
-- A concrete engine and host, and the properties at concrete inputs.
pub mod Engine
pub mod Storing
pub mod Auditing
pub mod Configuring
pub mod Gating
pub mod Spending
pub mod Erasing
pub mod Tracing
pub mod Histories
pub mod Prompting
pub mod Promoting
pub mod Instrumenting
pub mod Exporting
pub mod Routing
