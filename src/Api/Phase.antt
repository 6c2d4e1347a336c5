-- ===== src/Api/Phase.antt =====
-- JobPhase and its classes (api/v1alpha1/shared_types.go). `unset` is the empty string of a resource
-- that has never been reconciled.
use tuppr.Prelude.{String, Bool, true, false}

pub data JobPhase : Type 0 where
  unset pending health_checking pre_hook draining upgrading rebooting : JobPhase
  post_hook completed failed maintenance_window : JobPhase

-- The text of a phase, which is its name in the API.
abbrev pub phase_text : JobPhase → String
phase_text JobPhase.unset = ""
phase_text JobPhase.pending = "Pending"
phase_text JobPhase.health_checking = "HealthChecking"
phase_text JobPhase.pre_hook = "PreHook"
phase_text JobPhase.draining = "Draining"
phase_text JobPhase.upgrading = "Upgrading"
phase_text JobPhase.rebooting = "Rebooting"
phase_text JobPhase.post_hook = "PostHook"
phase_text JobPhase.completed = "Completed"
phase_text JobPhase.failed = "Failed"
phase_text JobPhase.maintenance_window = "MaintenanceWindow"

-- `JobPhase.IsActive`
abbrev pub is_active : JobPhase → Bool
is_active JobPhase.health_checking = true
is_active JobPhase.pre_hook = true
is_active JobPhase.draining = true
is_active JobPhase.upgrading = true
is_active JobPhase.rebooting = true
is_active JobPhase.post_hook = true
is_active _ = false

-- `JobPhase.IsInFlight`
abbrev pub is_in_flight : JobPhase → Bool
is_in_flight JobPhase.pre_hook = true
is_in_flight JobPhase.draining = true
is_in_flight JobPhase.upgrading = true
is_in_flight JobPhase.rebooting = true
is_in_flight JobPhase.post_hook = true
is_in_flight _ = false

-- `JobPhase.IsTerminal`
abbrev pub is_terminal : JobPhase → Bool
is_terminal JobPhase.completed = true
is_terminal JobPhase.failed = true
is_terminal _ = false

-- `p == JobPhasePending`, and so on.
abbrev pub is_pending : JobPhase → Bool
is_pending JobPhase.pending = true
is_pending _ = false

abbrev pub is_completed : JobPhase → Bool
is_completed JobPhase.completed = true
is_completed _ = false

abbrev pub is_failed : JobPhase → Bool
is_failed JobPhase.failed = true
is_failed _ = false

abbrev pub is_health_checking : JobPhase → Bool
is_health_checking JobPhase.health_checking = true
is_health_checking _ = false
