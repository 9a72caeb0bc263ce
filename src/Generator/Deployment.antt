-- ===== src/Generator/Deployment.antt =====
-- From the descriptor of a file to what gateways with its generated services answer.
mod Examples
use grpc_gateway_rust.Prelude.{
  ℕ, ◌≡◌, refl, sym, ◌∙◌, subst, true, false, some, List, [], ◌∷◌, map, Str, Option, done,
}
use grpc_gateway_rust.Http.{HeaderApi, MetadataApi}
use grpc_gateway_rust.Http.Message.{Request, Response, Outcome, success}
use grpc_gateway_rust.Grammar.{Template}
use grpc_gateway_rust.Layers.Error.{ErrorHandler}
use grpc_gateway_rust.Bindings.Descriptors.{FileDescriptorProto}
use grpc_gateway_rust.Bindings.Registry.{SymbolRegistry}
use grpc_gateway_rust.Bindings.Services.{MethodDefinition, ServiceDefinition, process_file}
use grpc_gateway_rust.Generator.{GeneratorOptions}
use grpc_gateway_rust.Generator.Service.{Naming, MethodCode}
use grpc_gateway_rust.Generator.Emitted.{Runtime, Method}
use grpc_gateway_rust.Generator.Answering.{generated_router}
use grpc_gateway_rust.Generator.Routing.{SpellsAll, methods_of}
use grpc_gateway_rust.Generator.Sources.{ServicesSpell, AllSpelled, process_file-AllSpelled}
use grpc_gateway_rust.Generator.Delivery.{Delivered, oversized, answered, handled-Delivered}
use grpc_gateway_rust.Gateway.Builder.{Gateway, handled}
use grpc_gateway_rust.Gateway.Outer.{TowerLayers, into_service}
use grpc_gateway_rust.Gateway.Passing.{PassesOn, without_layers, into_service-without_layers}
use grpc_gateway_rust.Layers.Body.{box_response_body}

module _ (api : HeaderApi) (md : MetadataApi) (runtime : Runtime md.Metadata) (naming : Naming)
    (options : GeneratorOptions) {W : Type 0} (In Out : MethodCode → Type 0)
    (methods : (code : MethodCode)
      → Method code.server_streaming (In code) (Out code) md.Metadata W)
    (decode : Str → Option Str) {Cors Compression Token : Type 0}
    (layers : TowerLayers api.Headers md.Metadata W Cors Compression) (max_req max_resp : Option ℕ)
    (g : Gateway api md Cors Compression Token W) (h : ErrorHandler api.Headers md.Metadata)
    (req : Request api.Headers md.Metadata) (w : W) where
  -- The gateway with the routes of a generated service, and without the layers of tower.
  abbrev pub serving : ServiceDefinition → Gateway api md Cors Compression Token W
  serving service = without_layers api md decode layers max_req max_resp (record g {
    router =
        (generated_router api md runtime naming options In Out methods decode g.auth_verifier
          g.unescaping_mode service).router;
  })

  -- An outcome that the templates of a service allow.
  abbrev pub Allows :
      ServiceDefinition → List (MethodDefinition × List Template) → Outcome api.Headers × W → Type 0
  Allows d templates out =
      Delivered api md runtime naming options In Out methods decode (serving d) d.package_name
        templates h req w out

  -- `into_service` answers with a response that they allow, its body boxed.
  abbrev pub Serving : ServiceDefinition → List (MethodDefinition × List Template) → Type 0
  Serving d templates =
      (resp : Response api.Headers) × (after : W) × Allows d templates (success resp, after)
      × (into_service api md Cors Compression Token W decode layers (serving d) req w
          ≡ (success (box_response_body layers.to_string resp), after))

  -- Each service has methods whose bindings are texts of its templates, and answers by them.
  abbrev pub AllDeliver : List ServiceDefinition → List (List (List Template)) → Type 0
  AllDeliver [] [] = Unit
  AllDeliver (d ∷ ds) (tss ∷ rest) =
      ((templates : List (MethodDefinition × List Template)) × (d.methods ≡ methods_of templates)
        × (map (λ (p : MethodDefinition × List Template). p.1) templates ≡ tss)
        × SpellsAll templates
        × Serving d templates)
      × AllDeliver ds rest
  AllDeliver _ _ = ⊥

  Allows-success :
      (d : ServiceDefinition) (templates : List (MethodDefinition × List Template))
      (out : Outcome api.Headers × W)
      → Allows d templates out
      → (resp : Response api.Headers) × (out ≡ (success resp, out.1))
  Allows-success d templates out (oversized large) = (_, refl)
  Allows-success d templates out (answered fits a) = (_, refl)

  methods_of-Serving :
      (d : ServiceDefinition) (templates : List (MethodDefinition × List Template))
      → PassesOn layers
      → g.error_handler ≡ some h
      → d.methods ≡ methods_of templates
      → SpellsAll templates
      → Serving d templates
  methods_of-Serving d templates passing handler same spells =
      let out = handled api md Cors Compression Token W decode (serving d) req w in
      let allowed : Allows d templates out =
        handled-Delivered api md runtime naming options In Out methods decode (serving d) d
          templates h req w refl handler same spells in
      let (resp, is_success) = Allows-success d templates out allowed in
      (
        resp,
        out.1,
        subst (Allows d templates) is_success allowed,
        into_service-without_layers api md decode layers max_req max_resp (serving d) req w out.1
            resp passing is_success,
      )

  AllSpelled-AllDeliver :
      (ds : List ServiceDefinition) (tsss : List (List (List Template)))
      → PassesOn layers
      → g.error_handler ≡ some h
      → AllSpelled ds tsss
      → AllDeliver ds tsss
  AllSpelled-AllDeliver [] [] passing handler s = tt
  AllSpelled-AllDeliver [] (tss ∷ rest) passing handler s = absurd s
  AllSpelled-AllDeliver (d ∷ ds) [] passing handler s = absurd s
  AllSpelled-AllDeliver (d ∷ ds) (tss ∷ rest) passing handler
        ((pairs, same, texts, spells), later) =
      (
        (pairs, same, texts, spells, methods_of-Serving d pairs passing handler same spells),
        AllSpelled-AllDeliver ds rest passing handler later,
      )

  -- Where the HTTP rules of a file are texts of templates of google.api.http, with `**` at the end only
  -- and indices that fit an `i32`, processing the file gives a service with these templates for each
  -- service of the file. Take a gateway with an error handler and the generated routes of such a
  -- service, which has no health check, compression, CORS, metrics or tracing, and whose governance
  -- limits the size of bodies at most. Where the layers of tower pass on what they get when none is
  -- configured, its `into_service` answers every request with a response, its body boxed, that the
  -- templates allow: a body above the limit with the handler's response; every other request, after
  -- its headers were matched and its metadata annotated, as the dispatch over the templates does. An
  -- error of it becomes the handler's response, and a response has its body limited and its headers
  -- matched before the modifiers run.
  pub process_file-AllDeliver :
      (file : FileDescriptorProto) (registry : SymbolRegistry) (tsss : List (List (List Template)))
      → PassesOn layers
      → g.error_handler ≡ some h
      → ServicesSpell file.service tsss
      → (ds : List ServiceDefinition) × (process_file file registry ≡ done ds) × AllDeliver ds tsss
  process_file-AllDeliver file registry tsss passing handler spell =
      let (ds, e, spelled) = process_file-AllSpelled file registry tsss spell in
      (ds, e, AllSpelled-AllDeliver ds tsss passing handler spelled)
