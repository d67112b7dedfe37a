-- ===== src/Store.antt =====
-- package store: the tables and the lock.
pub mod Schema
pub mod PullRequests
pub mod Issues
pub mod Mutex
