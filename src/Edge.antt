-- ===== src/Edge.antt =====
-- The firmware of edge in C, besides its encoder: the offline buffer and the event loop.
pub mod Buffer
pub mod Queue
pub mod Window
pub mod Uses
pub mod Loop
pub mod Conserved
pub mod Reached
