-- ===== src/Tests.antt =====
-- Examples: each theorem of the list in Lib.antt at a concrete input, over decimals in thousandths.
mod Sample
mod Matching
mod Book
mod Trees
mod Ids
mod Engine
mod Raft
mod Server
