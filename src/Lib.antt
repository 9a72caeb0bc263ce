-- ===== src/Lib.antt =====
-- grpc-gateway-rust turns HTTP requests into gRPC calls. Its code generator reads the path
-- templates of google.api.http and emits code that registers routes with a runtime; the runtime
-- routes requests through a stack of layers and forwards their metadata. This library models both:
-- the generator from descriptors to the code that it emits, and the runtime with its routing,
-- layers, default handlers, metadata, codecs and bodies. They meet in Generator.Answering, where
-- the emitted code runs on the runtime, in Generator.Entrance, which has the whole stack of
-- `into_service`, in Generator.Deployment, which goes from the descriptor of a file to the
-- responses of a gateway, and in Servers.
--
-- - Template: gateway-internal/src/path_template.rs, the compiled pattern that generator and
--   runtime share.
-- - Compiler: gateway-codegen/src/path_compiler.rs, `compile` from the text of a template to a
--   pattern. Compiler.Emit gives the same code in closed form.
-- - Pattern: gateway-runtime/src/pattern.rs, `route_matcher`, the stack machine that runs a
--   pattern over the components of a path.
-- - Grammar and Matching: no code. Grammar is the specification of path templates, of their text
--   and of what matches them, and Matching relates the compiler and the machine to it.
-- - Router: gateway-runtime/src/router.rs, the table of routes (`route`, `route_with_metadata`,
--   `match_request`).
-- - Errors: gateway-runtime/src/errors.rs, the error type, its status codes, and the response
--   for a gRPC status (Errors.Handling).
-- - Http: the interface of the crates http, tonic and http-body, which are not part of the
--   repository, with requests, responses and bodies of gateway-runtime/src/lib.rs. A body is the
--   list of what its polls return. Http.Concrete has an instance, for the examples.
-- - Layers: gateway-runtime/src/layers, a module per file (governance, error, response, headers,
--   metadata, body, metrics, tracing, health). A service takes a request and a state of the
--   world to an outcome and a state of the world, and a layer wraps a service.
-- - Defaults: gateway-runtime/src/defaults.rs and gateway-runtime/src/handlers.rs.
-- - Metadata: gateway-runtime/src/metadata.rs, `forward_metadata` and `grpc_timeout`.
-- - Codec: gateway-runtime/src/codec.rs, the JSON and the protobuf codec (Codec.Formats) and the
--   choice between them.
-- - Utilities: gateway-runtime/src/utilities.rs, `parse_body` with its multipart forms, and
--   `SyncService`.
-- - Forward: gateway-runtime/src/forward.rs, the responses of messages and of streams.
-- - Bindings: gateway-codegen/src/descriptor_processor.rs, the registry of message types, the
--   bindings of gateway-internal/src that the generator makes of the rules of a method, and the
--   services of a file.
-- - Generator: gateway-codegen/src/generator.rs and gateway-codegen/src/main.rs: paths of types,
--   setters (Generator.Setter), what is emitted for a service (Generator.Service) and what that
--   does when it runs (Generator.Emitted), the files (Generator.Files), the parameters of the
--   plugin (Generator.Plugin) and its main (Generator.Main). Generator.Typing has the structs
--   that prost generates, in which a setter is checked.
-- - Servers: examples/src, the functions of the example gateways that answer a request; the
--   gateway over actix-web in Servers.Actix, the gRPC server behind them in Servers.Upstream.
-- - Validator: gateway-codegen/src/validator.rs.
-- - Shutdown: gateway-runtime/src/shutdown.rs.
-- - Gateway: gateway-runtime/src/gateway.rs, the dispatch (`RouterService::call`), the builder,
--   and the stack of `into_service`, the inner part in Gateway.Builder and the whole in
--   Gateway.Outer.
--
-- A Rust `str` is its list of bytes, a `Vec` is a list, and a map that is only looked up is an
-- association list. `usize`, `u64` and `i32` keep their wrap-around where the code can reach it. A
-- future is the value that it yields, and `poll_ready`, which asks only the inner service, is left
-- out. Every loop runs over a list or a tree of descriptors, so no definition of the code uses
-- fuel; a reader polls a body, and the future of a shutdown, a given number of times, and for a
-- body the number of polls of the inner one is enough. A panic of proc_macro2 at a name that is no
-- identifier is an identifier `refused`, and code with one is not printed (Generator.Files). What a
-- hash map yields is in the order of its list.
--
-- Not modelled: the formats of the codecs and of multipart bodies, which are calls of prost,
-- serde_json and multer, and the layers of tower and tower-http (timeouts, concurrency, rate
-- limits, load shedding, CORS, compression), which are parameters; the quoted Rust that is the same
-- for every service; of the examples, sockets, the command line, and the channel of the streaming
-- method; gateway-internal/src/http_rule.rs, which no code uses.
pub mod Prelude
pub mod Template
pub mod Grammar
pub mod Pattern
pub mod Compiler
pub mod Matching
pub mod Router
pub mod Http
pub mod Errors
pub mod Defaults
pub mod Layers
pub mod Metadata
pub mod Gateway
pub mod Bindings
pub mod Codec
pub mod Forward
pub mod Validator
pub mod Utilities
pub mod Generator
pub mod Shutdown
pub mod Servers
