-- ===== src/Operator.antt =====
-- The web operator's control of the robot (salus_web/salus_web): the requests of protocol.py, the
-- lock of operator_guard.py and the lease of operator_lease.py.
pub mod Request
pub mod Protocol
pub mod Guard
pub mod Lease
