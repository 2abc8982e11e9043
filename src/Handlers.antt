-- ===== src/Handlers.antt =====
-- services/api/internal/handlers: one module for each handler type. A handler is a function of its
-- request and the store, which ends with one response. A request body is what json.Decoder left.
pub mod Auth
pub mod Devices
pub mod Enrollment
pub mod Sessions
pub mod Jobs
pub mod Groups
pub mod Operations
pub mod Telemetry
pub mod Updates
