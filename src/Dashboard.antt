-- ===== src/Dashboard.antt =====
-- static/dashboard.js: the page that lists the workers.
pub mod Requests
pub mod Actions
pub mod TimeDiff
pub mod Timers
pub mod Workers
pub mod App
pub mod Polling
pub mod Schedule
pub mod Row
pub mod Pools
pub mod Storage
pub mod Feedback
pub mod Components
pub mod Modal
pub mod Tokened
pub mod Remembered
