-- ===== src/Gateway/Arbiter/Winner.antt =====
-- Which source wins.
