-- ===== src/Gateway/Builder.antt =====
-- The builder of a gateway, and the inner stack of `into_service`.
use grpc_gateway_rust.Prelude.{ℕ, Option, none, some, List, [], ◌∷◌, ◌++◌, Str}
use grpc_gateway_rust.Http.{HeaderApi, MetadataApi}
use grpc_gateway_rust.Http.Message.{Service, MetadataForwardingConfig}
use grpc_gateway_rust.Router.{Router}
use grpc_gateway_rust.Defaults.{
  Rendering, default_error_handler, default_response_modifier, default_incoming_header_matcher,
  default_outgoing_header_matcher, default_metadata_annotator,
}
use grpc_gateway_rust.Metadata.{default_config}
use grpc_gateway_rust.Layers.Governance.{
  GovernanceConfig, no_governance, GatewayRetryPolicy, new_policy, limit_call,
}
use grpc_gateway_rust.Layers.Error.{ErrorHandler, error_call}
use grpc_gateway_rust.Layers.Response.{ResponseModifier, response_call}
use grpc_gateway_rust.Layers.Headers.{HeaderMatcher, header_call}
use grpc_gateway_rust.Layers.Metadata.{MetadataAnnotator, metadata_call}
use grpc_gateway_rust.Layers.Metrics.{MetricsRecorder, metrics_call}
use grpc_gateway_rust.Layers.Tracing.{TracingStartHandler, TracingEndHandler, trace_call}
use grpc_gateway_rust.Layers.Health.{HealthCheckConfig}
use grpc_gateway_rust.Gateway.{UnescapingMode, default, AuthVerifier, router_call}

-- `Cors` and `Compression` are the layers of tower-http, `Token` what a tracing handler returns.
module _ (api : HeaderApi) (md : MetadataApi) (Cors Compression Token W : Type 0) where
  pub record Gateway : Type 0 where
    pub router : Router (Service api.Headers md.Metadata W)
    pub error_handler : Option (ErrorHandler api.Headers md.Metadata)
    pub metadata_annotators : List (MetadataAnnotator md api.Headers W)
    pub response_modifiers : List (ResponseModifier api.Headers md.Metadata)
    pub incoming_header_matcher : Option HeaderMatcher
    pub outgoing_header_matcher : Option HeaderMatcher
    pub unescaping_mode : UnescapingMode
    pub auth_verifier : Option (AuthVerifier api.Headers md.Metadata)
    pub metrics_recorder : Option (MetricsRecorder api.Headers md.Metadata W)
    pub tracing_start : Option (TracingStartHandler Token api.Headers md.Metadata W)
    pub tracing_end : Option (TracingEndHandler Token api.Headers W)
    pub cors_layer : Option Cors
    pub compression_layer : Option Compression
    pub governance_config : GovernanceConfig
    pub health_check_config : Option HealthCheckConfig
    pub metadata_config : MetadataForwardingConfig

  -- `Gateway::new`
  unfoldable pub new_gateway :
      Rendering → (W → Str) → Router (Service api.Headers md.Metadata W) → Gateway
  new_gateway r nanos router = record {
    router = router;
    error_handler = some (default_error_handler api r);
    metadata_annotators = default_metadata_annotator md nanos ∷ [];
    response_modifiers = default_response_modifier api ∷ [];
    incoming_header_matcher = some default_incoming_header_matcher;
    outgoing_header_matcher = some default_outgoing_header_matcher;
    unescaping_mode = default;
    auth_verifier = none;
    metrics_recorder = none;
    tracing_start = none;
    tracing_end = none;
    cors_layer = none;
    compression_layer = none;
    governance_config = no_governance;
    health_check_config = none;
    metadata_config = default_config;
  }

  abbrev pub with_error_handler : ErrorHandler api.Headers md.Metadata → Gateway → Gateway
  with_error_handler handler g = record g { error_handler = some handler }

  abbrev pub with_metadata : MetadataAnnotator md api.Headers W → Gateway → Gateway
  with_metadata annotator g = record g {
    metadata_annotators = g.metadata_annotators ++ (annotator ∷ []);
  }

  abbrev pub with_response_modifier : ResponseModifier api.Headers md.Metadata → Gateway → Gateway
  with_response_modifier modifier g = record g {
    response_modifiers = g.response_modifiers ++ (modifier ∷ []);
  }

  abbrev pub with_incoming_header_matcher : HeaderMatcher → Gateway → Gateway
  with_incoming_header_matcher matcher g = record g { incoming_header_matcher = some matcher }

  abbrev pub with_outgoing_header_matcher : HeaderMatcher → Gateway → Gateway
  with_outgoing_header_matcher matcher g = record g { outgoing_header_matcher = some matcher }

  abbrev pub with_unescaping_mode : UnescapingMode → Gateway → Gateway
  with_unescaping_mode mode g = record g { unescaping_mode = mode }

  abbrev pub with_auth_verifier : AuthVerifier api.Headers md.Metadata → Gateway → Gateway
  with_auth_verifier verifier g = record g { auth_verifier = some verifier }

  abbrev pub with_metrics_recorder : MetricsRecorder api.Headers md.Metadata W → Gateway → Gateway
  with_metrics_recorder recorder g = record g { metrics_recorder = some recorder }

  abbrev pub with_cors : Cors → Gateway → Gateway
  with_cors layer g = record g { cors_layer = some layer }

  abbrev pub with_compression : Compression → Gateway → Gateway
  with_compression layer g = record g { compression_layer = some layer }

  abbrev pub with_tracing :
      TracingStartHandler Token api.Headers md.Metadata W
      → TracingEndHandler Token api.Headers W
      → Gateway
      → Gateway
  with_tracing start end g = record g { tracing_start = some start; tracing_end = some end }

  abbrev pub with_governance : GovernanceConfig → Gateway → Gateway
  with_governance config g = record g { governance_config = config }

  abbrev pub with_health_check : HealthCheckConfig → Gateway → Gateway
  with_health_check config g = record g { health_check_config = some config }

  abbrev pub with_metadata_config : MetadataForwardingConfig → Gateway → Gateway
  with_metadata_config config g = record g { metadata_config = config }

  -- From the dispatch to the error layer, the innermost first.
  module _ (decode : Str → Option Str) (g : Gateway) where
    abbrev pub router_service : Service api.Headers md.Metadata W
    router_service = router_call decode (record {
      router = g.router;
      auth_verifier = g.auth_verifier;
      unescaping_mode = g.unescaping_mode;
    })

    abbrev pub limited_service : Service api.Headers md.Metadata W
    limited_service = limit_call (record {
      inner = router_service;
      max_req = g.governance_config.max_request_body_size;
      max_resp = g.governance_config.max_response_body_size;
    })

    abbrev pub annotated : Service api.Headers md.Metadata W
    annotated = metadata_call md (record {
      inner = limited_service;
      annotators = g.metadata_annotators;
      config = g.metadata_config;
    })

    abbrev pub matched : Service api.Headers md.Metadata W
    matched = header_call api (record {
      inner = annotated;
      incoming_matcher = g.incoming_header_matcher;
      outgoing_matcher = g.outgoing_header_matcher;
    })

    abbrev pub modified : Service api.Headers md.Metadata W
    modified = response_call (record { inner = matched; modifiers = g.response_modifiers })

    abbrev pub handled : Service api.Headers md.Metadata W
    handled = error_call (record { inner = modified; handler = g.error_handler })

    -- With the legacy layers of metrics and tracing, and the retry layer of tower outermost.
    abbrev pub observed : (W → ℕ) → Service api.Headers md.Metadata W
    observed clock =
        let measured =
          metrics_call (record { inner = handled; recorder = g.metrics_recorder; clock = clock }) in
        trace_call (record { inner = measured; start = g.tracing_start; end = g.tracing_end })

    abbrev pub inner_service :
        (W → ℕ)
        → (GatewayRetryPolicy
            → Service api.Headers md.Metadata W
            → Service api.Headers md.Metadata W)
        → Service api.Headers md.Metadata W
    inner_service clock retry_layer = elim g.governance_config.retry_count [
      | none ↦ observed clock
      | some count ↦ retry_layer (new_policy count) (observed clock)
    ]
