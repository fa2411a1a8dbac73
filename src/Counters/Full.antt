-- ===== src/Counters/Full.antt =====
-- The map of counters when it is full. Entries are never deleted, so it stays full.
use equic.BpfMap.{BpfMap}
