-- ===== src/Injection.antt =====
-- The generated reconciler: pkg/client/injection/reconciler/sources/v1alpha1/yipyapsource.
pub mod Interface
pub mod State
pub mod Finalizers
pub mod Reconcile
pub mod Options
pub mod Informers
