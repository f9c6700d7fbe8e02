-- ===== src/Obs.antt =====
-- app/obs: alerts to the operator and the privacy-safe log.
pub mod Alerts
pub mod Events
