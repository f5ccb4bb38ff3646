-- ===== src/Operator.antt =====
-- The Kubernetes operator (cmd/operator) and the resource it reconciles (k8s/crds).
pub mod Types
pub mod Api
pub mod Deployment
pub mod Reconcile
pub mod Phases
pub mod Arguments
pub mod Progress
