-- ===== src/Kube.antt =====
-- internal/kube: Kubernetes identities and field differences, free of values.
pub mod Registry
pub mod Fields
