-- ===== src/Tests.antt =====
-- The theorems at concrete inputs, and tests of the definitions on them.
mod Fixtures
mod Enrollment
mod Sessions
mod Devices
mod Jobs
mod Ledger
mod Groups
mod Issue
mod Auth
mod Hub
mod Tables
mod Updates
mod Server
mod Requests
