-- ===== src/Tests.antt =====
-- Runs of the model at fixed inputs, and the instances of the theorems.
mod Request
mod Tlog
mod Sdk
mod Spec
mod Record
mod Coordinate
mod Build
mod Web
mod Access
mod Get
mod History
mod Index
