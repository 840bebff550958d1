-- ===== src/Subscriptions.antt =====
-- product/wp10/subscriptions.py: the coalescing snapshot of a subscriber.
pub mod Latest
pub mod Presence
