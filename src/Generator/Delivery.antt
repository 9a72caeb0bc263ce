-- ===== src/Generator/Delivery.antt =====
-- A generated service behind the whole inner stack of a gateway.
pub mod Examples
use grpc_gateway_rust.Prelude.{
  ◌≡◌, sym, subst, Bool-cases, inl, inr, true, false, some, List, Str, Option, lit,
}
use grpc_gateway_rust.Http.{HeaderApi, MetadataApi}
use grpc_gateway_rust.Http.Message.{Request, Outcome, success, failure}
use grpc_gateway_rust.Errors.{custom}
use grpc_gateway_rust.Grammar.{Template}
use grpc_gateway_rust.Layers.Governance.{too_large}
use grpc_gateway_rust.Layers.Error.{ErrorHandler}
use grpc_gateway_rust.Bindings.Services.{MethodDefinition, ServiceDefinition}
use grpc_gateway_rust.Generator.{GeneratorOptions}
use grpc_gateway_rust.Generator.Service.{Naming, MethodCode}
use grpc_gateway_rust.Generator.Emitted.{Runtime, Method}
use grpc_gateway_rust.Generator.Routing.{SpellsAll, methods_of}
use grpc_gateway_rust.Generator.Answering.{generated_router, Answered, router_call-Answered}
use grpc_gateway_rust.Gateway.{router_call}
use grpc_gateway_rust.Gateway.Builder.{Gateway, handled}
use grpc_gateway_rust.Gateway.Stack.{prepared}
use grpc_gateway_rust.Gateway.Answering.{
  finished, router_of, handled-oversized, handled-router_call,
}

module _ (api : HeaderApi) (md : MetadataApi) (runtime : Runtime md.Metadata) (naming : Naming)
    (options : GeneratorOptions) {W : Type 0} (In Out : MethodCode → Type 0)
    (methods : (code : MethodCode)
      → Method code.server_streaming (In code) (Out code) md.Metadata W)
    (decode : Str → Option Str) {Cors Compression Token : Type 0}
    (g : Gateway api md Cors Compression Token W) where
  -- The specification: a body above the limit, and a request that is answered by the templates of the
  -- service, and then finished as every response of the gateway is.
  pub data Delivered (package_name : Str) (templates : List (MethodDefinition × List Template))
      (h : ErrorHandler api.Headers md.Metadata) (req : Request api.Headers md.Metadata) (w : W)
      : Outcome api.Headers × W → Type 0 where
    oversized :
        too_large g.governance_config.max_request_body_size req.body ≡ true
        → Delivered package_name templates h req w (
          success (
              finished api md decode g h req (failure (custom 413 (lit "Request body too large")))),
          (prepared api md decode g req w).1,
        )
    answered :
        {o : Outcome api.Headers} {after : W}
        → too_large g.governance_config.max_request_body_size req.body ≡ false
        → Answered api md runtime naming options In Out methods decode g.auth_verifier
            g.unescaping_mode package_name templates
            (prepared api md decode g req w).0
            (prepared api md decode g req w).1
            (o, after)
        → Delivered package_name templates h req w
            (success (finished api md decode g h req o), after)

  -- A gateway with the routes of a generated service and an error handler answers by the templates.
  pub handled-Delivered :
      (service : ServiceDefinition) (templates : List (MethodDefinition × List Template))
      (h : ErrorHandler api.Headers md.Metadata) (req : Request api.Headers md.Metadata) (w : W)
      → g.router
        ≡ (generated_router api md runtime naming options In Out methods decode g.auth_verifier
            g.unescaping_mode service).router
      → g.error_handler ≡ some h
      → service.methods ≡ methods_of templates
      → SpellsAll templates
      → Delivered service.package_name templates h req w
          (handled api md Cors Compression Token W decode g req w)
  handled-Delivered service templates h req w routes handler e spells =
      elim (Bool-cases (too_large g.governance_config.max_request_body_size req.body)) [
        | inl large ↦
            subst (Delivered service.package_name templates h req w)
              (sym (handled-oversized api md decode g h req w handler large)) (oversized large)
        | inr fits ↦
            let ready = prepared api md decode g req w in
            subst (Delivered service.package_name templates h req w)
              (sym (handled-router_call api md decode g h req w handler fits))
              (answered fits (
                subst
                  (λ r.
                    Answered api md runtime naming options In Out methods decode g.auth_verifier
                      g.unescaping_mode service.package_name templates ready.0 ready.1
                      (router_call decode
                        (record {
                          router = r;
                          auth_verifier = g.auth_verifier;
                          unescaping_mode = g.unescaping_mode;
                        })
                        ready.0 ready.1))
                  (sym routes)
                  (router_call-Answered api md runtime naming options In Out methods decode
                    g.auth_verifier g.unescaping_mode service templates ready.0 ready.1 e spells)))
      ]
