-- ===== src/Examples.antt =====
-- The development at concrete inputs: tests and the theorems applied.
mod Dashboard
mod Rows
mod Auth
mod Setup
mod Pages
mod Components
mod Tokened
mod Choosing
mod Reopen
mod Authorised
mod Sleeping
mod ManagerWorkers
mod ManagerTasks
mod ManagerVariables
