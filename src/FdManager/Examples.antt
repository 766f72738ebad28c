-- ===== src/FdManager/Examples.antt =====
-- The theorems at the table of the constructor.
