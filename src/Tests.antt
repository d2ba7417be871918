-- ===== src/Tests.antt =====
-- Runs of the model at concrete inputs.
mod Store
mod Vm
mod Machine
mod System
mod Link
mod Calls
mod Program
