-- ===== src/Lexer.antt =====
-- larking/lexer.go: the lexer of path templates and of request paths.
pub mod Rune
pub mod State
pub mod Moves
pub mod Covers
pub mod Accounts
pub mod Grammar
pub mod Makes
pub mod RouteShape
pub mod TemplateShape
pub mod Template
pub mod Route
