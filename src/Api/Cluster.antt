-- ===== src/Api/Cluster.antt =====
-- The parts of the Kubernetes objects (Node, Pod, Job) that the program reads. Label and annotation
-- maps are association lists; `m[k]` is "" for a missing key, as in Go.
use tuppr.Prelude.{
  ℕ, String, Bool, true, false, Option, none, some, List, [], ◌∷◌, ltb, str_eq, if◌then◌else◌,
}

abbrev pub StringMap : Type 0
StringMap = List (String × String)

-- `v, ok := m[k]`
abbrev pub lookup : String → StringMap → Option String
lookup k [] = none
lookup k ((j, v) ∷ m) = if str_eq k j then some v else lookup k m

-- `_, ok := m[k]`
abbrev pub has_key : String → StringMap → Bool
has_key k m = elim (lookup k m) [ none ↦ false | some _ ↦ true ]

-- `m[k]`
abbrev pub get_or_empty : String → StringMap → String
get_or_empty k m = elim (lookup k m) [ none ↦ "" | some v ↦ v ]

abbrev pub is_empty : String → Bool
is_empty s = str_eq s ""

pub data AddressType : Type 0 where
  internal_ip external_ip other_address : AddressType

pub record Address : Type 0 where
  pub kind : AddressType
  pub address : String

-- A condition of a Node or a Job: its type and whether its status is True.
pub record ObjectCondition : Type 0 where
  pub kind : String
  pub is_true : Bool

pub record Taint : Type 0 where
  pub key : String
  pub effect : String

pub record Node : Type 0 where
  pub name : String
  pub uid : String
  pub labels : StringMap
  pub annotations : StringMap
  pub unschedulable : Bool
  pub taints : List Taint
  pub addresses : List Address
  pub conditions : List ObjectCondition
  pub os_image : String
  pub kubelet_version : String

-- The controller reference of an object: kind, name and UID of its owner.
pub record OwnerRef : Type 0 where
  pub kind : String
  pub name : String
  pub uid : String

pub record Job : Type 0 where
  pub name : String
  pub uid : String
  pub labels : StringMap
  pub controller : Option OwnerRef
  pub succeeded : ℕ
  pub conditions : List ObjectCondition

pub data PodPhase : Type 0 where
  pod_pending pod_running pod_succeeded pod_failed pod_unknown : PodPhase

pub record Pod : Type 0 where
  pub namespace : String
  pub name : String
  pub uid : String
  pub annotations : StringMap
  pub terminating : Bool  -- DeletionTimestamp != nil
  pub phase : PodPhase
  pub owner_kinds : List String
  pub claims : List String  -- claim names of its PVC volumes, in order
  pub node_name : String
  pub controller : Option OwnerRef

-- jobs.IsSucceeded, IsFailed, IsTerminal (internal/controller/jobs/jobs.go).
unfoldable pub is_succeeded : Job → Bool
is_succeeded j = ltb 0 j.succeeded

has_failed : List ObjectCondition → Bool
has_failed [] = false
has_failed (c ∷ cs) =
    if str_eq c.kind "Failed" then if c.is_true then true else has_failed cs else has_failed cs

unfoldable pub is_failed_job : Job → Bool
unfolding has_failed
is_failed_job j = has_failed j.conditions

unfoldable pub is_terminal_job : Job → Bool
unfolding is_succeeded is_failed_job
is_terminal_job j = if is_succeeded j then true else is_failed_job j

-- isNodeReady (internal/controller/talosupgrade/upgrade.go): the first Ready condition decides.
first_ready : List ObjectCondition → Bool
first_ready [] = false
first_ready (c ∷ cs) = if str_eq c.kind "Ready" then c.is_true else first_ready cs

unfoldable pub is_node_ready : Node → Bool
unfolding first_ready
is_node_ready n = first_ready n.conditions
