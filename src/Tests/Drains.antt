-- ===== src/Tests/Drains.antt =====
-- A drain on a node with three pods.
use tuppr.Prelude.{
  String, false, Option, none, some, List, [], ◌∷◌, ◌≡◌, refl, All, str_eq, if◌then◌else◌,
}
use tuppr.Api.Cluster.{Pod, PodPhase}
use tuppr.Drain.{
  EvictionError, Listing, is_drain_managed, node_pods, uids, evict_all, wait_gone, drain_node,
}
use tuppr.Drain.Gone.{IsAsked, AreGone, drain_node-AreGone}

abbrev pod_of : String → List String → Pod
pod_of name owner_kinds = record {
  namespace = "default";
  name = name;
  uid = name;
  annotations = [];
  terminating = false;
  phase = PodPhase.pod_running;
  owner_kinds = owner_kinds;
  claims = [];
  node_name = "worker-1";
  controller = none;
}

abbrev daemon : Pod
daemon = pod_of "daemon" ("DaemonSet" ∷ [])

abbrev app : Pod
app = pod_of "app" ("ReplicaSet" ∷ [])

abbrev guarded : Pod
guarded = pod_of "guarded" ("ReplicaSet" ∷ [])

abbrev on_node : List Pod
on_node = app ∷ daemon ∷ guarded ∷ []

-- A disruption budget guards one pod.
abbrev evict_answer : Pod → Option EvictionError
evict_answer pod =
    if str_eq pod.name "guarded" then some (EvictionError.too_many_requests "budget") else none

abbrev delete_answer : Pod → Option String
delete_answer pod = none

abbrev polls : List Listing
polls = Listing.items (daemon ∷ guarded ∷ []) ∷ Listing.items (daemon ∷ []) ∷ []

drained : (drain_node none false evict_answer delete_answer (Listing.items on_node) polls).0 ≡ none
unfolding drain_node evict_all wait_gone is_drain_managed
drained = refl

drain_node-AreGone_example :
    All
      (IsAsked false
        (drain_node none false evict_answer delete_answer (Listing.items on_node) polls).1)
      (node_pods none is_drain_managed on_node)
    × AreGone none (uids (node_pods none is_drain_managed on_node)) polls
drain_node-AreGone_example =
    drain_node-AreGone none false evict_answer delete_answer on_node polls drained
