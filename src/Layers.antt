-- ===== src/Layers.antt =====
-- gateway-runtime/src/layers: the layers around the router. A layer is a function from a service to a
-- service; `poll_ready` of every layer only asks the inner service and is left out.
pub mod Governance
pub mod Error
pub mod Response
pub mod Headers
pub mod Metadata
pub mod Body
pub mod Metrics
pub mod Tracing
pub mod Health
pub mod Examples
