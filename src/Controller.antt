-- ===== src/Controller.antt =====
-- The controller: pkg/reconciler/yipyapsource.
pub mod Running
pub mod Kube
pub mod Deployment
pub mod Reconcile
pub mod Wiring
