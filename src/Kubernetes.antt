-- ===== src/Kubernetes.antt =====
-- The KubernetesUpgrade controller (internal/controller/kubernetesupgrade).
pub mod Status
pub mod World
pub mod Phase
pub mod Nodes
pub mod Jobs
pub mod Annotations
pub mod Process
pub mod Pass
pub mod Reconcile
