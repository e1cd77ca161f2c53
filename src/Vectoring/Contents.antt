-- ===== src/Vectoring/Contents.antt =====
-- The abstract view of a ring, and the parts of the buffer that its vectors name.
mod Spans
unfoldable pub use Spans.{contents, around}
pub use Spans.{mod_once, request_lem, gather_lem, sync_parts, scatter_outside, scatter_lem}
