-- ===== src/Tasks/Typed/Rows.antt =====
-- Every row that a table may hold is read from the positions that the statement selects.
