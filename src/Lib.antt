-- ===== src/Lib.antt =====
-- tuppr upgrades a Talos Linux cluster from inside: a controller reconciles TalosUpgrade plans, which
-- upgrade the nodes in batches of jobs, and another one a KubernetesUpgrade.
--
-- Api models the resources and the parts of Kubernetes objects that are read (api/v1alpha1,
-- internal/controller/jobs). Maintenance is internal/controller/maintenance/window.go: `check_window`
-- is CheckWindow. Coordination is internal/controller/coordination/coordinator.go. Audit is
-- internal/controller/upgradeaudit: conditions and history. NodeUtil is
-- internal/controller/nodeutil/nodes.go.
--
-- Talos is internal/controller/talosupgrade. Talos.World gives the monad of one reconcile: a program
-- takes the World (the object in memory, the status that the API server stores, the effects that
-- went through) and returns an answer, an early return, or nothing where the code would not return.
-- Each outside call is answered by `Env` under the number of the call, so no two answers are related
-- and any write may fail. Talos.Status is the status patch. Talos.Phase is setPhaseWithUpdates and its
-- callers (controller.go) with the audit fields (audit.go). Talos.Nodes is nodes.go, Talos.Image
-- buildTalosUpgradeImage, Talos.Verify verifyNodeUpgrade, Talos.Reboot the reboot tracking of
-- controller.go, Talos.Outcome completeNodeUpgrade and processSingleJobFailure, Talos.Jobs
-- handleBatchJobStatus (jobs.go), Talos.Recovery processRebootingNodes, Talos.Next findNextNodes,
-- Talos.Health clusterhealth.go and the health checks, Talos.Batch nextBatch and the control-plane
-- slot, Talos.PrePull prepull.go, Talos.Hooks hooks.go, Talos.Annotations annotations.go, Talos.Start the
-- drain and the jobs of a batch, Talos.Silence silence.go, and Talos.Process processUpgrade (upgrade.go),
-- which takes the sync of the silences as an argument. Functions keep the
-- source's names in snake case; a function's helpers stand beside it.
--
-- Kubernetes is internal/controller/kubernetesupgrade, over a World and an Env of its own, built in the
-- same way: Kubernetes.Phase its transitions, Kubernetes.Nodes the reads of the nodes, Kubernetes.Jobs
-- jobs.go, Kubernetes.Annotations annotations.go, Kubernetes.Process processUpgrade (upgrade.go), and
-- Kubernetes.Reconcile the rest of controller.go. Kubernetes.World.Contract has the rules by which an
-- action keeps an invariant and promises a reply; Kubernetes.Pass states what a pass may do and
-- applies them to every function of the pass.
--
-- Drain is internal/controller/drain/drain.go, the evictions and the waits; Talos.Start takes a whole
-- drain as one answer of its surroundings.
--
-- Webhook is internal/webhook: Webhook.Validation and Webhook.Version are validation.go,
-- Webhook.KubernetesPlan and Webhook.TalosPlan the two webhook.go, Webhook.Compatibility
-- compatibility.go. Valid, Path and Admitted below them say what is accepted without the code.
-- Prelude.Match reads the regular expressions.
--
-- Times are nanoseconds since Go's zero time. The loop of lastFireTime is on fuel, `rounds`; it has
-- enough once its gaps are longer than a week. All other recursion is structural.
--
-- Outside the repository, and arguments here: the cron parser (`Calendar`), the condition functions
-- of the API library (`ConditionLibrary`), the Kubernetes and Talos APIs, the image registry, the
-- semver library and the compatibility tables of Talos (`Tables`), the parsers that the webhooks call
-- (`Library`). Not modelled: logs, metrics, events and notifications, the pods of jobs and the
-- evaluation of CEL health checks, the field LastUpdated, which nothing reads, and the cut of the times
-- to whole seconds when a status is stored.
pub mod Prelude
pub mod Api
pub mod NodeUtil
pub mod Maintenance
pub mod Coordination
pub mod Kubernetes
pub mod Audit
pub mod Drain
pub mod Talos
pub mod Webhook
pub mod Tests
