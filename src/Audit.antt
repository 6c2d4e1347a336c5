-- ===== src/Audit.antt =====
-- internal/controller/upgradeaudit: the Progressing and Ready conditions (conditions.go) and the run
-- history (upgradeaudit.go). `meta.FindStatusCondition` and `meta.SetStatusCondition` belong to the
-- API library: they come as a record of operations.
pub mod History
pub mod Ready
use tuppr.Prelude.{
  ℕ, zero, suc, ◌-◌, String, Bool, true, false, Option, none, some, List, [], ◌∷◌, ◌&&◌, not,
  length, take, str_eq, ◌==◌, if◌then◌else◌,
}
use tuppr.Api.Phase.{JobPhase, phase_text, is_in_flight, is_failed}
use tuppr.Api.Cluster.{is_empty}
use tuppr.Api.Talos.{Condition}

pub record ConditionLibrary : Type 0 where
  pub find : List Condition → String → Option Condition
  pub set : List Condition → Condition → List Condition

-- HistoryMaxEntries
abbrev pub history_max_entries : ℕ
history_max_entries = 3

-- MaxCompletionCycles
abbrev pub max_completion_cycles : ℕ
max_completion_cycles = 5

-- The loop of PrependHistory: entries are appended while fewer than `limit` are held.
fill_history {ℓ} : {A : Type ℓ} → ℕ → List A → List A
fill_history zero old = []
fill_history (suc room) [] = []
fill_history (suc room) (x ∷ old) = x ∷ fill_history room old

-- PrependHistory; the new entry is appended before the first test of the limit.
unfoldable pub prepend_history {ℓ} : {A : Type ℓ} → List A → A → ℕ → List A
unfolding fill_history
prepend_history history entry limit = entry ∷ fill_history (limit - 1) history

abbrev same_condition : Option Condition → Condition → Bool
same_condition none c = false
same_condition (some a) c =
    not (if a.status then not c.status else c.status)
    && str_eq a.reason c.reason
    && str_eq a.message c.message
    && (a.observed_generation == c.observed_generation)

all_found : ConditionLibrary → List Condition → List Condition → Bool
all_found lib a [] = true
all_found lib a (c ∷ cs) = same_condition (lib.find a c.kind) c && all_found lib a cs

-- ConditionsEqual
unfoldable pub conditions_equal : ConditionLibrary → List Condition → List Condition → Bool
unfolding all_found
conditions_equal lib a b = if length a == length b then all_found lib a b else false

abbrev pub progressing_type : String
progressing_type = "Progressing"

abbrev pub ready_type : String
ready_type = "Ready"

-- The reason that ApplyConditions settles on.
abbrev pub final_reason : JobPhase → String → String
final_reason phase reason =
    if is_empty reason
    then (if is_empty (phase_text phase) then "Initializing" else phase_text phase)
    else reason

abbrev pub is_initialized : JobPhase → String → Bool
is_initialized phase reason = if is_empty reason then not (is_empty (phase_text phase)) else true

abbrev pub progressing_condition : JobPhase → String → String → ℕ → Condition
progressing_condition phase reason message generation = record {
  kind = progressing_type;
  status = is_in_flight phase;
  reason = final_reason phase reason;
  message = message;
  observed_generation = generation;
}

abbrev pub ready_condition : JobPhase → String → String → ℕ → Condition
ready_condition phase reason message generation = record {
  kind = ready_type;
  status = is_initialized phase reason && not (is_failed phase);
  reason = final_reason phase reason;
  message = message;
  observed_generation = generation;
}

-- ApplyConditions
unfoldable pub apply_conditions :
    ConditionLibrary → List Condition → JobPhase → String → String → ℕ → List Condition
apply_conditions lib existing phase reason message generation =
    lib.set (lib.set existing (progressing_condition phase reason message generation))
      (ready_condition phase reason message generation)
