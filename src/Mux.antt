-- ===== src/Mux.antt =====
-- larking/mux.go: options, rule selectors, the state of a mux and the entry of requests.
pub mod Selector
pub mod Selected
pub mod Handlers
pub mod Removal
pub mod Picking
pub mod Options
pub mod Settings
pub mod Settled
pub mod Entry
pub mod Compression
pub mod Register
pub mod Served
pub mod Serving
pub mod Proxy
pub mod Reflection
pub mod Connect
pub mod Outcomes
pub mod Owned
pub mod Connected
pub mod Numbered
pub mod History
