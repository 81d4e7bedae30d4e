-- ===== src/Serial.antt =====
-- onstep_adapter/mount.py: the pure functions with which the adapter on a serial port reads a
-- status and judges the limits. The class that uses them is in Mount.
pub mod Status
pub mod Protection
pub mod Limits
pub mod Agreement
pub mod Coverage
pub mod Proof
pub mod Validity
