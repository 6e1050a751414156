-- ===== src/Examples.antt =====
-- Concrete inputs on which the theorems are applied, and a store in place of the database server.
pub mod Store
pub mod Counts
pub mod Statements
pub mod Prepared
pub mod Shown
pub mod Goods
pub mod Queues
pub mod Logins
pub mod Running
pub mod Tables
pub mod Bodies
pub mod Lists
pub mod Failures
pub mod Files
pub mod Reports
