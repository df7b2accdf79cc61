-- ===== src/Pgn.antt =====
-- apps/db_to_spills: games are cut out of the PGN text, their headers and moves are read, and every move
-- of an accepted game is counted.
pub mod Extract
pub mod Moves
pub mod Game
pub mod Blob
pub mod Database
