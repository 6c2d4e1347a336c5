-- ===== src/Drain.antt =====
-- The drain of a node (internal/drain/drain.go): which pods are evicted, the fallback to a deletion,
-- and the waits. The API server's answers are arguments: `list`, the pods that are bound to the node,
-- `evict` and `delete`, the answers to those requests, and `polls`, the answers that a wait sees before
-- its deadline. The result of an operation stands beside the requests that went through, in order.
-- Cordon and uncordon are in Talos.Start.
pub mod Gone
use tuppr.Prelude.{
  String, Bool, true, false, not, ◌&&◌, Option, none, some, List, [], ◌∷◌, ◌++◌, ◌⧺◌, map, inl, inr,
  ◌⊎◌, str_eq, contains, contains_func, filter, is_nil, if◌then◌else◌,
}
use tuppr.Api.Cluster.{Pod, PodPhase, has_key, is_empty}

-- apierrors.IsTooManyRequests
pub data EvictionError : Type 0 where
  too_many_requests other_failure : String → EvictionError

abbrev text_of : EvictionError → String
text_of (EvictionError.too_many_requests text) = text
text_of (EvictionError.other_failure text) = text

pub data Listing : Type 0 where
  items : List Pod → Listing
  list_error : String → Listing

pub data Request : Type 0 where
  evict delete : Pod → Request

-- isDaemonSetPod
abbrev pub is_daemon_set_pod : Pod → Bool
is_daemon_set_pod pod = contains pod.owner_kinds "DaemonSet"

-- isMirrorPod
abbrev pub is_mirror_pod : Pod → Bool
is_mirror_pod pod = has_key "kubernetes.io/config.mirror" pod.annotations

abbrev pub is_over : PodPhase → Bool
is_over PodPhase.pod_succeeded = true
is_over PodPhase.pod_failed = true
is_over _ = false

-- isDrainManaged
unfoldable pub is_drain_managed : Pod → Bool
is_drain_managed pod =
    if is_over pod.phase
    then false
    else if is_daemon_set_pod pod
    then false
    else not (is_mirror_pod pod)

-- shouldEvictPod
unfoldable pub should_evict_pod : Pod → Bool
unfolding is_drain_managed
should_evict_pod pod = if pod.terminating then false else is_drain_managed pod

-- d.skipPod: the namespace and the name of the controller's own pod.
abbrev pub is_own : Option (String × String) → Pod → Bool
is_own none pod = false
is_own (some (namespace, name)) pod = str_eq pod.namespace namespace && str_eq pod.name name

-- nodePods on the pods that the API server lists.
abbrev pub node_pods : Option (String × String) → (Pod → Bool) → List Pod → List Pod
node_pods skip keep listed = filter (λ pod. not (is_own skip pod) && keep pod) listed

-- DrainOptions, the grace period aside.
module _ (respect_pdbs : Bool) (evict_answer : Pod → Option EvictionError)
    (delete_answer : Pod → Option String) where
  abbrev pub delete_result : Pod → Option String → Option String × List Request
  delete_result pod none = (none, Request.delete pod ∷ [])
  delete_result pod (some e) = (some ("failed to delete pod: " ⧺ e), [])

  -- deletePod
  abbrev pub delete_pod : Pod → Option String × List Request
  delete_pod pod = delete_result pod (delete_answer pod)

  -- evictPod past the request.
  abbrev pub after_eviction : Pod → Option EvictionError → Option String × List Request
  after_eviction pod none = (none, Request.evict pod ∷ [])
  after_eviction pod (some (EvictionError.too_many_requests text)) =
      if not respect_pdbs then delete_pod pod else (some text, [])
  after_eviction pod (some (EvictionError.other_failure text)) = (some text, [])

  -- evictPod
  abbrev pub evict_pod : Pod → Option String × List Request
  evict_pod pod = after_eviction pod (evict_answer pod)

  -- The rest of the loop follows where the eviction gave no error.
  abbrev pub next_eviction :
      Pod
      → Option String × List Request
      → Option String × List Request
      → Option String × List Request
  next_eviction pod (none, sent) (failed, rest) = (failed, sent ++ rest)
  next_eviction pod (some e, sent) rest =
      (some ("failed to evict pod " ⧺ pod.namespace ⧺ "/" ⧺ pod.name ⧺ ": " ⧺ e), sent)

  -- The loop of DrainNode.
  unfoldable pub evict_all : List Pod → Option String × List Request
  evict_all [] = (none, [])
  evict_all (pod ∷ rest) =
      let others = evict_all rest in
      if pod.terminating then others else next_eviction pod (evict_pod pod) others

-- The condition of the wait: whether a pod that was pending is still there.
abbrev pub holds_pending : Option (String × String) → List String → List Pod → Bool
holds_pending skip pending listed =
    contains_func (λ pod. contains pending pod.uid) (node_pods skip is_drain_managed listed)

-- The wait of DrainNode. Where no answer comes before the deadline any more, it fails.
unfoldable pub wait_gone : Option (String × String) → List String → List Listing → Option String
wait_gone skip pending [] = some "failed waiting for pods to terminate: context deadline exceeded"
wait_gone skip pending (Listing.list_error e ∷ polls) =
    some ("failed waiting for pods to terminate: " ⧺ e)
wait_gone skip pending (Listing.items listed ∷ polls) =
    let later = wait_gone skip pending polls in
    if holds_pending skip pending listed then later else none

abbrev pub uids : List Pod → List String
uids = map (λ pod. pod.uid)

module _ (skip : Option (String × String)) (respect_pdbs : Bool)
    (evict_answer : Pod → Option EvictionError) (delete_answer : Pod → Option String) where
  abbrev pub after_evictions :
      List Pod → List Listing → Option String × List Request → Option String × List Request
  after_evictions seen polls (some e, sent) = (some e, sent)
  after_evictions seen polls (none, sent) = (wait_gone skip (uids seen) polls, sent)

  -- DrainNode
  unfoldable pub drain_node : Listing → List Listing → Option String × List Request
  unfolding is_drain_managed evict_all wait_gone
  drain_node (Listing.list_error e) polls = (some ("failed to list pods: " ⧺ e), [])
  drain_node (Listing.items listed) polls =
      let seen = node_pods skip is_drain_managed listed in
      after_evictions seen polls (evict_all respect_pdbs evict_answer delete_answer seen)

  -- IsDrained
  abbrev pub is_drained : List Pod → Bool
  unfolding should_evict_pod
  is_drained listed = is_nil (node_pods skip should_evict_pod listed)

-- The answer to the Get of a claim: its volume's name, nothing where it does not exist.
pub data Claim : Type 0 where
  bound_to : String → Claim
  no_claim : Claim
  claim_error : String → Claim

module _ (get_claim : String → String → Claim) where
  abbrev pub add_volume : List String → String → List String
  add_volume pvs name =
      if is_empty name then pvs else if contains pvs name then pvs else pvs ++ (name ∷ [])

  -- The inner loop of EvictableVolumePVs, over the claims of a pod.
  abbrev pub claim_volumes : String → List String → List String → String ⊎ List String
  claim_volumes namespace [] pvs = inr pvs
  claim_volumes namespace (claim ∷ claims) pvs = elim (get_claim namespace claim) [
    | Claim.bound_to name ↦ claim_volumes namespace claims (add_volume pvs name)
    | Claim.no_claim ↦ claim_volumes namespace claims pvs
    | Claim.claim_error e ↦ inl ("failed to get pvc " ⧺ namespace ⧺ "/" ⧺ claim ⧺ ": " ⧺ e)
  ]

  -- The outer loop.
  abbrev pub pod_volumes : List Pod → List String → String ⊎ List String
  pod_volumes [] pvs = inr pvs
  pod_volumes (pod ∷ pods) pvs = elim (claim_volumes pod.namespace pod.claims pvs) [
    | inl e ↦ inl e
    | inr more ↦ pod_volumes pods more
  ]

  -- EvictableVolumePVs
  unfoldable pub evictable_volume_pvs : Option (String × String) → Listing → String ⊎ List String
  unfolding should_evict_pod
  evictable_volume_pvs skip (Listing.list_error e) = inl e
  evictable_volume_pvs skip (Listing.items listed) =
      pod_volumes (node_pods skip should_evict_pod listed) []

-- storagev1.VolumeAttachment
pub record VolumeAttachment : Type 0 where
  pub node_name : String
  pub persistent_volume_name : Option String

pub data Attachments : Type 0 where
  attachments : List VolumeAttachment → Attachments
  attachments_error : String → Attachments

abbrev pub is_attached : String → List String → VolumeAttachment → Bool
is_attached node targets va =
    str_eq va.node_name node
    && elim va.persistent_volume_name [ none ↦ false | some pv ↦ contains targets pv ]

-- The wait of WaitForVolumeDetach.
abbrev pub wait_detached : String → List String → List Attachments → Option String
wait_detached node targets [] = some "context deadline exceeded"
wait_detached node targets (Attachments.attachments_error e ∷ polls) =
    some ("failed to list volumeattachments: " ⧺ e)
wait_detached node targets (Attachments.attachments vas ∷ polls) =
    let later = wait_detached node targets polls in
    if contains_func (is_attached node targets) vas then later else none

-- WaitForVolumeDetach
unfoldable pub wait_for_volume_detach : String → List String → List Attachments → Option String
wait_for_volume_detach node pv_names polls =
    if is_nil pv_names then none else wait_detached node pv_names polls
