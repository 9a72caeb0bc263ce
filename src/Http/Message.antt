-- ===== src/Http/Message.antt =====
-- Requests, responses and bodies, as `GatewayRequest` and `GatewayResponse` of
-- gateway-runtime/src/lib.rs.
use grpc_gateway_rust.Prelude.{ℕ, Option, none, List, [], Str, Map}
use grpc_gateway_rust.Errors.{GatewayError}

-- gateway-runtime/src/metadata.rs
pub record MetadataForwardingConfig : Type 0 where
  pub allowed_prefixes : List Str
  pub allowed_headers : List Str

-- The typed slots of a request that the gateway fills.
pub record Extensions (M : Type 0) : Type 0 where
  pub params : Option (Map Str)
  pub metadata : Option M
  pub metadata_config : Option MetadataForwardingConfig

abbrev pub no_extensions : {M : Type 0} → Extensions M
no_extensions = record { params = none; metadata = none; metadata_config = none }

pub record Request (H M : Type 0) : Type 0 where
  pub method : Str
  pub path : Str
  pub query : Option Str
  pub version : ℕ
  pub headers : H
  pub extensions : Extensions M
  pub body : Str

-- What a poll of a body returns; a body is what its polls return, and then its end.
pub data Frame : Type 0 where
  data_frame : Str → Frame
  trailers : Frame

pub data Poll : Type 0 where
  pending : Poll
  frame : Frame → Poll
  failed : GatewayError → Poll

abbrev pub Body : Type 0
Body = List Poll

pub record Response (H : Type 0) : Type 0 where
  pub status : ℕ
  pub headers : H
  pub body : Body

-- `GatewayResult`
pub data Outcome (H : Type 0) : Type 0 where
  success : Response H → Outcome H
  failure : GatewayError → Outcome H

-- A service of the tower stack: what it answers, and what it does to the world around it.
abbrev pub Service : Type 0 → Type 0 → Type 0 → Type 0
Service H M W = Request H M → W → Outcome H × W

-- A request that a layer builds again for its handler: method, URI and headers are kept.
abbrev pub partial_request : {H M : Type 0} → Request H M → Request H M
partial_request req = record req { version = 11; extensions = no_extensions; body = [] }
