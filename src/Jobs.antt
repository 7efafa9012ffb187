-- ===== src/Jobs.antt =====
-- gcjobs/src/gcjobs: the service that accepts import requests and tracks them as OGC API jobs.
pub mod Event
pub mod Runs
pub mod Storage
pub mod Service
pub mod Datasets
pub mod Routing
mod Tests
