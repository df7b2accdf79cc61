-- ===== src/AggMerger.antt =====
-- apps/agg_merger/agg_merger.cpp: the aggregates of several runs are merged into one, position by
-- position, and positions with fewer than five games are left out. Four workers share the key space
-- between them, and their outputs are joined in order.
pub mod Ranges
pub mod Worker
pub mod Join
pub mod Sums
pub mod Cursors
pub mod Drains
pub mod Group
pub mod Spans
pub mod Written
pub mod Loop
pub mod Slices
pub mod Shares
pub mod Cuts
pub mod Totals
