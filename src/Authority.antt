-- ===== src/Authority.antt =====
-- experiments/space-auth/par_auth: the history of signed controls of a Space (chain.py) and the memberships
-- that they commit to (membership.py), the decisions on them, activation (activation.py) and admissions (admission.py).
pub mod Control
pub mod Membership
pub mod State
pub mod Chain
pub mod Permit
pub mod Activation
pub mod Admission
