-- ===== src/CommandGuard/Walk/Cleared.antt =====
-- commandguard/parser.go: the scripts that the analysis lets pass.
