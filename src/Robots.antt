-- ===== src/Robots.antt =====
-- robots.txt: patterns, the precedence of rules, groups of user agents, the parser
-- (internal/robots/parser.go).
pub mod Match
pub mod Rules
pub mod Parser
