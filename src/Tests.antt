-- ===== src/Tests.antt =====
-- Runs of the definitions on small inputs, and the theorems at states that meet their hypotheses.
mod States
mod Memory
mod Serial
mod System
mod Devices
mod Disks
mod Loading
mod Calls
mod Running
