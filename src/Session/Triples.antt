-- ===== src/Session/Triples.antt =====
-- What a session action does, as a triple: from a session that `P` describes it returns a value and
-- a session that `Q` describes, or raises in a session that `E` describes.
mod Basic
mod Leaving
mod Commit
pub use Basic.*
pub use Leaving.*
pub use Commit.*
