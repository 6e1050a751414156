-- ===== src/Query.antt =====
-- back/services/db_connector: queries, from their options to the text and values that pqxx gets.
pub mod Schema
pub mod Values
pub mod Text
pub mod Condition
pub mod Options
pub mod Build
