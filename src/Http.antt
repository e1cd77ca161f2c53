-- ===== src/Http.antt =====
-- vk_http11.c: the server of HTTP/1.1, as what its coroutines do with the bytes that come in. A
-- blocking call ends with the bytes it wants or at end of file.
pub mod Head
pub mod Entity
pub mod Response
pub mod Heads
pub mod Chunks
pub mod Entities
pub mod Responses
pub mod Kept
pub mod Requests
