-- ===== src/Http.antt =====
-- larking/http.go: requests and responses over plain HTTP.
pub mod Action
pub mod Stream
pub mod HeadersFirst
pub mod Errors
pub mod Serve
pub mod Served
pub mod Finish
pub mod Bodies
pub mod Websocket
pub mod WebsocketOrder
pub mod Triples
pub mod Ended
pub mod Once
