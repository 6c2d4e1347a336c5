-- ===== src/Talos.antt =====
-- The TalosUpgrade controller (internal/controller/talosupgrade). `World` is what one reconcile
-- reads and writes, `Status` the status record and its merge patches; the other modules are the
-- controller's files.
pub mod World
pub mod Status
pub mod Nodes
pub mod Image
pub mod Phase
pub mod Reboot
pub mod Verify
pub mod Outcome
pub mod Jobs
pub mod Recovery
pub mod Next
pub mod Health
pub mod Batch
pub mod PrePull
pub mod Hooks
pub mod Annotations
pub mod Start
pub mod Process
pub mod Silence
