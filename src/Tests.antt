-- ===== src/Tests.antt =====
-- The theorems at concrete inputs, and runs of the code.
mod UrlUtil
mod Robots
mod Ssrf
mod Fetcher
mod HttpServer
mod Config
mod Crawl
mod Engine
mod Frontier
mod Schema
mod Storage
mod Queue
mod Issues
mod Throttle
mod Paging
mod Sitemap
mod AgentReadiness
mod UrlGroup
mod Stream
