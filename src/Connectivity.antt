-- ===== src/Connectivity.antt =====
-- The connectivity candidate: product/wp09/par_connectivity.
pub mod Ip
pub mod Model
pub mod Endpoint
pub mod Grants
pub mod Policy
pub mod State
pub mod Connector
