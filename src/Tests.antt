-- ===== src/Tests.antt =====
-- Runs of the model at fixed inputs.
mod Settings
mod LexerTests
mod RuleTests
mod ServerTests
mod Varint
mod CodecTests
mod StreamTests
mod HttpTests
mod ProxyTests
mod PoolTests
