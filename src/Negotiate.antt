-- ===== src/Negotiate.antt =====
-- larking/negotiate.go: the Accept headers, and the choice among the offers.
pub mod Accept
pub mod Choose
pub mod Chosen
pub mod Encoding
pub mod Rounds
