-- ===== src/Commands/Stats/Memory.antt =====
-- The memory in use as src/commands/stats.rs computes it.
use mathlib.Core.Option
