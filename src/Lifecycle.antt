-- ===== src/Lifecycle.antt =====
-- experiments/management-record-lifecycle/par_record_lifecycle: the inventory of management records
-- (contracts.py) and the lifecycle that archives it generation by generation (model.py).
pub mod Json
pub mod Record
pub mod Inventory
pub mod Plan
pub mod Events
pub mod Model
