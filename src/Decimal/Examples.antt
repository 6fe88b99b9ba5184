-- ===== src/Decimal/Examples.antt =====
-- The numbers -42 and 7.
