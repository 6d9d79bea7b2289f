-- ===== src/Lib.antt =====
-- A verification library for seo-crawler-mcp, a crawler for search-engine audits written in Go.
--
-- The program fetches a site page by page and reports what it finds. A job starts from seed URLs. The
-- engine (internal/engine) takes URLs from a queue (internal/frontier), asks robots.txt
-- (internal/robots) and the crawl's scope (internal/urlutil) whether it may fetch them, fetches them
-- (internal/fetcher) behind a guard against requests to internal networks (internal/ssrf), parses and
-- stores the pages, puts the links that it discovers (internal/crawl), in their normal form, into the
-- queue, and at last derives issues (internal/issues) and serves the results (internal/httpserver,
-- internal/mcp).
--
-- What is modelled, a function of the source under its name in the spelling of this library:
--   Prelude         what the other modules share: Boolean tests on numbers, lists measured by native
--                   numbers, the functions of package strings on texts, results, integers
--   UrlUtil         internal/urlutil/normalize.go and scope.go
--     .Percent      normalizePercentEncoding, a scan over bytes; Tokens, Idempotent and Keep: proofs
--     .Normalize    Normalize, IsDroppedScheme; Schemes and Canonical: proofs
--     .FrontierKey  FrontierKey, PageIdentityKey, shouldIgnoreParam; Params: proofs
--     .Trap         HasRepeatedPathSegments
--     .Scope        NewScopeChecker, IsInScope
--   Robots          internal/robots/parser.go
--     .Match        matchPattern, patternLength; Greedy and Anchor: proofs
--     .Rules        IsAllowed, findGroup, CrawlDelay; Precedence and Groups: proofs
--     .Parser       Parse as a loop over lines with its state; Blocks and Shared: proofs
--   Ssrf            internal/ssrf/guard.go; Ranges and Hosts: proofs
--   Fetcher         internal/fetcher/fetcher.go: do with its CheckRedirect and its retry after a 429;
--                   Dial: the DialContext of New; Redirects and Retry: proofs
--     .Throttle     internal/fetcher/ratelimit.go: ThrottleHost, its timers, effectiveDelayLocked;
--                   Lasting: proofs
--   Frontier        internal/frontier/queue.go; Once: proofs; Smallest: a list as the heap
--   Crawl           internal/crawl/discovery.go; Places, Edges and Links: proofs
--   Schema          internal/parser/schema_validate.go; Limit, Lacks, Ruled and
--                   Whole: proofs
--     .Rules        internal/parser/schema_rules.go
--   Engine          internal/engine/engine.go
--     .Depths       recomputePageDepths, a breadth-first search; Walks, Offer, Rounds, Ending and
--                   Shortest: proofs
--     .Variants     queryVariantsTracker; Traps: proofs
--     .Budget       reserveDiscoveredURL, recordBudgetHit; Spent: proofs
--     .Limits       effectiveMaxPages and the other limits of a job
--   Config          internal/config/config.go: Config, DefaultConfig, MatchesForceRender
--     .File, .Environment, .Loading  internal/config/load.go: LoadFromFile, applyEnvOverrides,
--                   validateConfig and LoadConfig; Valid: proofs
--   Sitemap         internal/sitemap/parser.go: FetchAndParseContextWithUserAgent, ParseXML, ParseIndex;
--                   Rounds and Bounds: proofs
--   AgentReadiness  internal/agentreadiness: types.go; .Links, .Robots, .Endpoints: link_header.go, robots.go,
--                   wellknown.go; .Homepages: uniqueHomepages of runner.go
--   UrlGroup        internal/urlgroup/groups.go; Assigned: proofs
--   Storage         internal/storage/jobs.go
--     .Jobs         the statements on crawl_jobs; Table, Queries and Claims: proofs
--     .Purge        PurgeJob, purgeTableChunked; Chunks: proofs
--     .Rows         the tables that the paged queries read
--     .Paging       the cursors of internal/storage/queries.go; .Pages: its queries; .Order and .Offsets:
--                   internal/storage/queries_offset.go; Cursors, Sorting, Whole, Complete and Totals: proofs
--     .Decimal, .Base64  what the cursors use of strconv and encoding/base64
--   HttpServer      internal/httpserver/server.go and handlers.go
--     .Queue        handleCrawl's locked block, queueWorker, runCrawlJob, handleJobCancel, as steps on
--                   the table of jobs; Invariant, Moves, Starts, Posts, Cancels and
--                   Safety: proofs
--     .Stream       streamSession of internal/httpserver/stream.go, internal/storage/activity.go;
--                   Feed: proofs
--     .RateLimit    rateLimiter, with its collector; Bursts: proofs
--   Issues          internal/issues/pagelocal.go: the context of a page, issues, DefaultThresholds
--     .Texts        the tests on texts, with .Directives and .Hreflang
--     .Urls         DetectURLIssues
--     .Basics, .Markup, .Content, .Detect  the sections of DetectPageLocalIssues and the whole;
--                   Detect.Severe: proofs
--   Tests           runs of the code, and the theorems at concrete inputs
--
-- Texts are lists of bytes (Bytes), as Go's strings are. Lower-casing and white space are those of
-- ASCII: a theorem about a text with other letters says what the code does without Unicode folding.
-- Code outside the repository is an argument: net/url's parser (Parser, which gives the fields of a
-- URL, with the host and the port that its methods return), the public-suffix list, net.SplitHostPort,
-- net.ParseIP, net.LookupIP, whose answers stay the same over a fetch, URL.String, and one request on
-- the wire (Net, whose state each request changes, so that a server may answer differently each time). An address is its number of 32 or 128 bits, a
-- network its first address and its size. An association list stands for a Go map; its order is the
-- order in which Go walks the map, and theorems hold for every order.
--
-- Loops are recursion on their list or text. The client's loop over redirects is recursion on fuel,
-- which bounds the requests: MaxRedirectHops, or one request where that is 0, are enough, because
-- each redirect adds a hop. What a fetch does besides, that is headers, deadlines, bodies, their
-- limits and decompression, is I/O and not modelled; neither is ResolveReference, which only calls
-- net/url. Schema is the validation of JSON-LD with encoding/json as an argument; the source's guard
-- on its depth is what its recursion counts. A purge is a loop on fuel, which bounds the chunks of a
-- table: one more than the full ones is enough; what refers to a job goes with its row at the end. The search for depths is a loop on fuel, which bounds
-- its rounds: the number of pages is enough. So is the loop over sitemaps, for which 1001002 rounds
-- are enough: each visits a new URL, after which at most 1000 wait, or shortens the queue. The values
-- of a configuration file come from the TOML decoder, the environment is a function, and strconv,
-- time.ParseDuration and path.Match are arguments.
--
-- A table of the database is a list of rows, a statement a function on it; that the database itself
-- fails is not modelled. What crawlMu guards is one step of the server, as each other statement is,
-- and the steps come in any order; the engine's run is the statement with which it ends the job.
--
-- The engine's pool of goroutines, the HTML parser, the renderer, the other statements on the
-- database, the other handlers of the HTTP and MCP servers and the clients of other services are I/O
-- or glue around third-party packages.
pub mod Prelude
pub mod UrlUtil
pub mod Robots
pub mod Ssrf
pub mod Fetcher
pub mod Frontier
pub mod Crawl
pub mod Schema
pub mod Engine
pub mod Config
pub mod Sitemap
pub mod UrlGroup
pub mod AgentReadiness
pub mod Storage
pub mod HttpServer
pub mod Issues
mod Tests
