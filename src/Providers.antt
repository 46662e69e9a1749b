-- ===== src/Providers.antt =====
-- internal/providers: the clients of the upstreams. OpenCode and the generic adapter share one client; xAI,
-- Gemini and NVIDIA have copies of one text, which differ in the words of two errors.
pub mod Wire
pub mod Sse
pub mod Http
pub mod Opencode
pub mod Keyed
pub mod Catalog
pub mod Compat
