-- ===== src/Api.antt =====
-- The API types: api/v1alpha1, a child for each of its files and for the Kubernetes objects.
pub mod Phase
pub mod Cluster
pub mod Kubernetes
pub mod Talos
