-- ===== src/Clients.antt =====
-- The generated clients: pkg/client/clientset/versioned.
pub mod Clientset
