-- ===== src/Tests.antt =====
-- Tests, and the theorems at concrete inputs.
mod Samples
mod Program
mod Controller
mod Arbitration
mod Server
mod System
mod Status
mod Embed
mod Helpers
mod Registry
mod Matchers
mod Pending
mod Threads
