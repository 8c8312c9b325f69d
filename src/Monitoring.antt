-- ===== src/Monitoring.antt =====
-- The bridge's monitor: monitoring/src/detectors/anomaly-detector.ts and monitoring/src/alerts/dispatcher.ts.
pub mod Detector
pub mod Dispatcher
pub mod Runs
pub mod History
pub mod Pauses
pub mod Window
pub mod Service
mod Tests
