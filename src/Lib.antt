-- ===== src/Lib.antt =====
-- larking, a proxy that serves gRPC services as REST: `larking.Mux` keeps a tree of HTTP rules,
-- finds the method of a request, and negotiates how the answer is coded. The paths below are from
-- the root of the repository.
--
-- The parts and their files:
-- * Lexer, of larking/lexer.go: the tokens of rule templates (`lexTemplate`) and of request paths
--   (`lexPath`). Lexer.Rune decodes UTF-8 and classifies runes, Lexer.State is the record `lexer`
--   with `next`, `backup`, `acceptRun` and `emit`, Lexer.Template and Lexer.Route are the functions
--   of the same names. Lexer.Grammar states the grammar; the other modules are proofs about the
--   tokens.
-- * Rules, of larking/rules.go: Rules.Fields is `fieldPath` and the messages of HTTP rules,
--   Rules.Tree the structs `path` and `variable`, Rules.Scan the loop of `addRule` over the tokens,
--   Rules.Add `addRule`, Rules.Delete `delRule`, Rules.Search `index`, `search` and `match`, and
--   Rules.Params `parseParam` and `parseQueryParams`, and Rules.SetParams `params.set`; the other
--   modules are proofs. Registration uses the lexer of templates, and a search the lexer of paths.
-- * Codes, of larking/code.go: the tables from gRPC codes to HTTP and WebSocket statuses.
-- * Negotiate, of larking/negotiate.go: Negotiate.Accept parses Accept headers, and
--   Negotiate.Choose chooses among the offers; the other modules are proofs.
-- * Io, for larking/codec.go and larking/mux.go: the reads of an io.Reader as a list of outcomes,
--   and the loops over them that `ReadNext` and io.ReadFull are.
-- * Codec, of larking/codec.go: `growcap` (Codec.Growcap), `ReadNext` and `WriteNext` of CodecJSON
--   (Codec.Json) and of CodecProto (Codec.Proto), and `ReadNext` of codecHTTPBody with `readAll`
--   and `writeAll` of larking/mux.go (Codec.Body). Codec.JsonText has a grammar of objects;
--   Codec.JsonScan, Codec.JsonFrames, Codec.ProtoFrames, Codec.GrowcapBounds and Codec.BodyLimits
--   are proofs.
-- * Grpc, of larking/grpc.go: the names of headers and the metadata (Grpc.Headers), the coding of
--   grpc-message (Grpc.Message) and of grpc-timeout (Grpc.Timeout), the frames of `SendMsg` and
--   `RecvMsg` (Grpc.Frame), and the headers of streamGRPC with `serveGRPC` (Grpc.Serve).
--   Grpc.FrameLaws, Grpc.Sequence and Grpc.Status are proofs.
-- * Mux, of larking/mux.go and larking/handler.go: Mux.Selector is `ruleSelector`, Mux.Handlers the
--   struct `state` with `appendHandler` and `removeHandler`, Mux.Options and Mux.Settings the
--   options and `NewMux`, Mux.Register `registerService` and `DropConn`, Mux.Reflection what
--   `addConnHandler` and `FindFileByPath` read of a connection's reflection service, Mux.Connect
--   `RegisterConn`, `addConnHandler` and `processFile`, Mux.History the states that these
--   registrations lead to, and Mux.Entry `ServeHTTP`. Mux.Proxy has the handlers of
--   `createConnHandler`: Mux.Proxy.Forward is a call that streams, the steps of its two goroutines
--   in any order, and Mux.Proxy.Unary one that does not. The other modules are proofs:
--   Mux.Outcomes, Mux.Owned, Mux.Numbered and Mux.Connected about connections, Mux.Proxy.Invariant
--   and Mux.Proxy.InOrder about forwarded calls, Mux.Settled, Mux.Selected, Mux.Removal,
--   Mux.Picking, Mux.Served, Mux.Serving, Mux.Compression.
-- * Compress, of larking/compress.go: `CompressorGzip`, its writers, readers and pools.
--   Compress.Runs is the relation of the calls on it, by callers that close a writer once and do
--   not read past the end, and Compress.Exclusive and Compress.Holders are proofs.
-- * Http, of larking/http.go: Http.Action is the state of streamHTTP with the errors of its
--   methods, Http.Stream these methods, which read and write by the codecs' interface, Http.Bodies
--   `AsHTTPBodyReader` and `AsHTTPBodyWriter`, Http.Errors `encError`, and Http.Serve `serveHTTP`,
--   which takes a method from the rules, its handler from the state and the types from the
--   negotiation; Http.Finish is the rest of it, behind the handler. Http.Websocket is streamWS of
--   larking/websocket.go. Http.Triples, Http.HeadersFirst, Http.Ended, Http.Once, Http.Served and
--   Http.WebsocketOrder are proofs.
-- * Web, of larking/web.go: Web.Writer is `isWebRequest`, webWriter and `serveGRPCWeb`, which hands
--   its request on to `serveGRPC`; Web.TrailerNames and Web.Trailers are proofs.
-- * Server, of larking/server.go: `NewServer` and its options; Server.Patterns is a proof.
-- * Stats, of larking/stats.go and larking/log.go: payloads and the contexts of interceptors.
-- * Health, of health/health.go: `AddHealthz`.
-- * ReflectionServer, of larking/proxy.go: the loop of `ServerReflectionInfo`, and a proof.
-- * Tests runs the model on concrete inputs.
--
-- Representation. A Go string is the list of its bytes, an error or a panic is a value, a map is an
-- association list, and the fields that a loop changes are its arguments. The cursor that `addRule`
-- moves through the tree of pointers is a walk that rebuilds the tree on its way back. A pointer to
-- a handler is a number. The length of a slice of tokens and the positions in an input are natural
-- numbers, since both are bounded by the input; a time.Duration wraps at 64 bits, as do the ints of
-- `growcap`. A stream is a list of what its reads return; where it ends, a read waits. Methods of a
-- stream are actions on its state, which stays as it is where they fail. A buffer stands for its
-- bytes: its capacity and the pools of buffers are left out. Goroutines are the steps of a
-- relation, one for each call on a stream, and a writer or reader of a pool is a number.
--
-- Bounds and fuel. The lexers take at most 64 tokens, the length of the array in the source. Each
-- round of the loop of `lex_path` emits two tokens, so it has fuel for 34 rounds; each round and
-- each nesting of the loops of `lex_template` emits a token, so it has fuel for 66. `accept_run`
-- has one round more than the input has bytes, since a rune is a byte at least, and so has the
-- parser of an Accept header, each round of which takes a byte at least. The varint of a message
-- has 10 rounds, as in the source; the rounds of the JSON scanner are its limit, as in the source.
-- `grow_from` has as much fuel as the capacity that is wanted, since each round adds 256 at least.
-- No other definition needs fuel.
--
-- Parameters. The Unicode tables above U+00FF, the descriptors of protoreflect and of the registry,
-- the decoders of encoding/json, encoding/base64 and protojson, the arithmetic of float64, the
-- varints of protowire, the marshalling of codecs, the compressors, metadata.Join, canonical header
-- names, the text of headers, the messages of package proto and their reflection, the stream of a
-- reflection service, protodesc.NewFile, compress/gzip, http.ServeMux and http2.ConfigureServer are
-- arguments of the definitions that use them. Http.Stream takes `params.set` as a function of its
-- messages.
--
-- Not modelled. The marshalling of codecs, the signals of larking/server.go, the lookups of
-- larking/proxy.go, which nothing calls, the upgrade of a connection to a WebSocket, the debug text
-- of a selector, and the locks, logs and events of statistics, but for the slice that `RecvMsg`
-- takes for the statistics of a payload. A context that is done is an argument where `serveGRPC`
-- asks for it, the handlers are what calls a stream, and what a call on a connection's stream
-- returns is left open.
pub mod Base
pub mod Lexer
pub mod Rules
pub mod Codes
pub mod Negotiate
pub mod Io
pub mod Codec
pub mod Http
pub mod Web
pub mod Mux
pub mod Compress
pub mod Server
pub mod Stats
pub mod ReflectionServer
pub mod Health
pub mod Grpc
mod Tests
