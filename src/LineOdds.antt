-- ===== src/LineOdds.antt =====
-- apps/line_odds: the positions from which a target is still reachable, half-move by half-move.
pub mod Book
pub mod Graph
pub mod Backward
pub mod Forward
pub mod Walks
pub mod Sound
pub mod Laid
pub mod Within
pub mod Admits
pub mod Covers
pub mod Paths
pub mod Exact
pub mod Parents
