-- ===== src/Rules.antt =====
-- larking/rules.go: the tree of HTTP rules, and the search for the method of a request.
pub mod Fields
pub mod Params
pub mod SetParams
pub mod Stored
pub mod ParamKinds
pub mod Tree
pub mod Scan
pub mod Add
pub mod Delete
pub mod Search
pub mod Flat
pub mod Nesting
pub mod Depth
pub mod DepthWalk
pub mod DepthAdd
pub mod Reach
