-- ===== src/UrlUtil.antt =====
-- Canonical URLs (internal/urlutil).
pub mod Percent
pub mod Normalize
pub mod FrontierKey
pub mod Trap
pub mod Scope
