-- ===== src/Generator/Entrance.antt =====
-- gateway-runtime/src/gateway.rs and the generated code: a gateway with the defaults, through the whole stack of `into_service`.
mod Examples
use grpc_gateway_rust.Prelude.{◌≡◌, refl, subst, none, List, Str, Option}
use grpc_gateway_rust.Http.{HeaderApi, MetadataApi}
use grpc_gateway_rust.Http.Message.{Request, Response, Outcome, success}
use grpc_gateway_rust.Grammar.{Template}
use grpc_gateway_rust.Defaults.{Rendering, default_error_handler}
use grpc_gateway_rust.Layers.Body.{box_response_body}
use grpc_gateway_rust.Bindings.Services.{MethodDefinition, ServiceDefinition}
use grpc_gateway_rust.Generator.{GeneratorOptions}
use grpc_gateway_rust.Generator.Service.{Naming, MethodCode}
use grpc_gateway_rust.Generator.Emitted.{Runtime, Method}
use grpc_gateway_rust.Generator.Routing.{SpellsAll, methods_of}
use grpc_gateway_rust.Generator.Answering.{generated_router}
use grpc_gateway_rust.Generator.Delivery.{Delivered, oversized, answered, handled-Delivered}
use grpc_gateway_rust.Generator.Outage.{default_gateway}
use grpc_gateway_rust.Gateway.{default}
use grpc_gateway_rust.Gateway.Builder.{new_gateway, handled}
use grpc_gateway_rust.Gateway.Outer.{TowerLayers, into_service}
use grpc_gateway_rust.Gateway.Passing.{IsPassing, into_service-handled}

module _ (api : HeaderApi) (md : MetadataApi) (runtime : Runtime md.Metadata) (naming : Naming)
    (options : GeneratorOptions) {W : Type 0} (In Out : MethodCode → Type 0)
    (methods : (code : MethodCode)
      → Method code.server_streaming (In code) (Out code) md.Metadata W)
    (decode : Str → Option Str) (Cors Compression Token : Type 0) (r : Rendering) (nanos : W → Str)
    (layers : TowerLayers api.Headers md.Metadata W Cors Compression) (service : ServiceDefinition)
    (templates : List (MethodDefinition × List Template)) (req : Request api.Headers md.Metadata)
    (w : W) where
  -- An outcome that the templates of the service allow, finished by the defaults.
  abbrev pub Allowed : Outcome api.Headers × W → Type 0
  Allowed =
      Delivered api md runtime naming options In Out methods decode
        (default_gateway api md runtime naming options In Out methods decode Cors Compression Token
          r nanos service)
        service.package_name templates (default_error_handler api r) req w

  -- It is a response.
  Allowed-success :
      (out : Outcome api.Headers × W)
      → Allowed out
      → (resp : Response api.Headers) × (out ≡ (success resp, out.1))
  Allowed-success out (oversized large) = (_, refl)
  Allowed-success out (answered fits a) = (_, refl)

  -- Where the layers of tower pass on what they get when none is configured, `into_service` of a gateway
  -- with the defaults and the generated routes of a service answers every request with a response, its
  -- body boxed, that the templates of the service allow: after the headers of the request were matched
  -- and its metadata annotated, what the dispatch over the templates answers, an error of it through
  -- the default error handler, with its headers matched and modified (no body is too large, since the
  -- defaults set no limit); the state is the one that this answer leaves. For templates of
  -- google.api.http, with `**` only at the end and indices that fit an i32.
  pub into_service-Delivered :
      IsPassing layers
      → service.methods ≡ methods_of templates
      → SpellsAll templates
      → (resp : Response api.Headers) × (after : W) × Allowed (success resp, after)
        × (into_service api md Cors Compression Token W decode layers
              (default_gateway api md runtime naming options In Out methods decode Cors Compression
                Token r nanos service)
              req
              w
            ≡ (success (box_response_body layers.to_string resp), after))
  unfolding new_gateway
  into_service-Delivered passing e spells =
      let out =
        handled api md Cors Compression Token W decode
          (default_gateway api md runtime naming options In Out methods decode Cors Compression
            Token r nanos service)
          req w in
      let allowed : Allowed out =
        handled-Delivered api md runtime naming options In Out methods decode
          (default_gateway api md runtime naming options In Out methods decode Cors Compression
            Token r nanos service)
          service templates (default_error_handler api r) req w refl refl e spells in
      let (resp, same) = Allowed-success out allowed in
      (
        resp,
        out.1,
        subst Allowed same allowed,
        into_service-handled api md Cors Compression Token W decode layers r nanos
            (generated_router api md runtime naming options In Out methods decode none default
              service).router
            req w out.1 resp passing same,
      )
