-- ===== src/Generator/Outage.antt =====
-- A gateway with the defaults, in front of a gRPC service that refuses every call.
mod Examples
use grpc_gateway_rust.Prelude.{
  ℕ, Map, ◌≡◌, ◌≢◌, ◌≤◌, refl, sym, ap, ◌∙◌, subst, Bool-cases, Option-cases, inl, inr, false, none,
  some, List, [], ◌∷◌, Str, Option, Attempt, stopped, lit, str_eq, str_eq_iff, str_eq_refl,
  to_lowercase, >>=-eq-some, arith, if◌then◌else◌,
}
use grpc_gateway_rust.Http.{HeaderApi, MetadataApi, Status, Code, ok, values_of}
use grpc_gateway_rust.Http.Message.{Request, Response, Outcome, success, failure, Service}
use grpc_gateway_rust.Http.LastValue.{last_or}
use grpc_gateway_rust.Errors.{map_code_to_status, status_of}
use grpc_gateway_rust.Errors.Laws.{map_code_to_status_range}
use grpc_gateway_rust.Errors.Handling.{handle_error}
use grpc_gateway_rust.Grammar.{Template}
use grpc_gateway_rust.Router.{Router}
use grpc_gateway_rust.Layers.Headers.{new_name, match_headers}
use grpc_gateway_rust.Layers.Headers.Renaming.{renamed_to, match_headers-renamed_to}
use grpc_gateway_rust.Defaults.{
  Rendering, json_headers, default_error_handler, default_response_modifier,
  default_outgoing_header_matcher,
}
use grpc_gateway_rust.Bindings.Services.{MethodDefinition, ServiceDefinition}
use grpc_gateway_rust.Generator.{GeneratorOptions}
use grpc_gateway_rust.Generator.Service.{Naming, MethodCode, RegistrationCode}
use grpc_gateway_rust.Generator.Emitted.{Runtime, Method, GrpcRequest}
use grpc_gateway_rust.Generator.Serving.{Serves, unreadable, refused, replied}
use grpc_gateway_rust.Generator.Routing.{SpellsAll, methods_of}
use grpc_gateway_rust.Generator.Answering.{generated_router, Answered, unmatched, forbidden, served}
use grpc_gateway_rust.Generator.Delivery.{Delivered, oversized, answered, handled-Delivered}
use grpc_gateway_rust.Gateway.{default}
use grpc_gateway_rust.Gateway.Builder.{Gateway, new_gateway, handled}
use grpc_gateway_rust.Gateway.Stack.{prepared}
use grpc_gateway_rust.Gateway.Answering.{finished}

-- A matcher renames the header `own`, which alone is there, to another name than `k`.
module _ (api : HeaderApi) (own k : Str) where
  renamed_to-other :
      (es : List (Str × Str))
      → ((j : Str) → str_eq own j ≡ false → values_of j es ≡ [])
      → ((j : Str) → new_name api default_outgoing_header_matcher own ≡ some j → str_eq j k ≡ false)
      → renamed_to api default_outgoing_header_matcher k es ≡ []
  renamed_to-other [] alone other = refl
  renamed_to-other ((key, v) ∷ es) alone other = elim (Bool-cases (str_eq own key)) [
    | inr differs ↦
        let gone : values_of key ((key, v) ∷ es) ≡ [] = alone key differs in
        absurd (cc (rw (str_eq_refl key) at gone))
    | inl same ↦
        let e : own ≡ key = (str_eq_iff own key).0 same in
        let later = renamed_to-other es (λ j differs. tail j (alone j differs)) other in
        elim (Option-cases (new_name api default_outgoing_header_matcher key)) [
          | inl dropped ↦ rw dropped later
          | inr (j, named) ↦ rw (named, other j (rw (← e) at named)) later
        ]
  ]
    where
      tail : (j : Str) → values_of j ((key, v) ∷ es) ≡ [] → values_of j es ≡ []
      tail j h = elim (Bool-cases (str_eq key j)) [
        | inl same ↦ absurd (cc (rw same at h))
        | inr differs ↦ rw differs at h
      ]

module _ (api : HeaderApi) where
  json_headers-entries :
      (j : Str)
      → str_eq (lit "content-type") j ≡ false
      → values_of j (api.entries (json_headers api)) ≡ []
  json_headers-entries j differs =
      sym (api.get_all-entries j (json_headers api))
      ∙ api.get_all-insert_header (lit "content-type") j (lit "application/json") api.no_headers
      ∙ rw differs (api.get_all-no_headers j)

  json_headers-new_name :
      (j : Str)
      → new_name api default_outgoing_header_matcher (lit "content-type") ≡ some j
      → str_eq j (lit "x-http-code") ≡ false
  unfolding default_outgoing_header_matcher to_lowercase str_eq
  json_headers-new_name j named = rw (api.parse_name-to_lowercase (lit "content-type") j named) refl

  -- The JSON response of an error has no status for the default modifier, so that it keeps its own.
  handle_error-kept :
      {M : Type 0} (req : Request api.Headers M) (resp : Response api.Headers)
      → resp.headers ≡ match_headers api (some default_outgoing_header_matcher) (json_headers api)
      → (default_response_modifier api req resp).status ≡ resp.status
  unfolding default_response_modifier
  handle_error-kept req resp e =
      let none_left : api.get_all (lit "x-http-code") resp.headers ≡ [] = rw e (
        match_headers-renamed_to api default_outgoing_header_matcher (lit "x-http-code")
          (json_headers api)
        ∙ ap (last_or []) (
            renamed_to-other api (lit "content-type") (lit "x-http-code")
              (api.entries (json_headers api)) json_headers-entries json_headers-new_name)) in
      rw (none_left, default_response_modifier)

module _ (md : MetadataApi) {W : Type 0} (In Out : MethodCode → Type 0)
    (methods : (code : MethodCode)
      → Method code.server_streaming (In code) (Out code) md.Metadata W) where
  -- The gRPC service refuses every call, with a status that is not OK.
  pub record IsRefusing (down : Status) : Type 0 where
    pub fails : down.code ≢ ok
    pub refuses :
        (code : MethodCode) (call : GrpcRequest (In code) md.Metadata) (w : W)
        → ((methods code).client call w).0 ≡ stopped down

module _ (api : HeaderApi) (md : MetadataApi) (runtime : Runtime md.Metadata) (naming : Naming)
    (options : GeneratorOptions) {W : Type 0} (In Out : MethodCode → Type 0)
    (methods : (code : MethodCode)
      → Method code.server_streaming (In code) (Out code) md.Metadata W)
    (decode : Str → Option Str) (Cors Compression Token : Type 0) (r : Rendering)
    (nanos : W → Str) where
  -- `Gateway::new` with the routes of a generated service.
  abbrev pub default_gateway : ServiceDefinition → Gateway api md Cors Compression Token W
  default_gateway service =
      new_gateway api md Cors Compression Token W r nanos
        (generated_router api md runtime naming options In Out methods decode none default
          service).router

  -- A client or server error.
  abbrev pub IsErrorStatus : ℕ → Type 0
  IsErrorStatus status = (400 ≤ status) × (status ≤ 504)

  down-IsErrorStatus :
      (down : Status) → down.code ≢ ok → IsErrorStatus (map_code_to_status down.code)
  down-IsErrorStatus down fails = elim (map_code_to_status_range down.code) [
    | inl (fine, e) ↦ absurd (fails fine)
    | inr (other, low, high) ↦ (low, high)
  ]

  module _ (service : ServiceDefinition) (req : Request api.Headers md.Metadata) (w : W)
      (down : Status) (outage : IsRefusing md In Out methods down) where
    abbrev given : Outcome api.Headers → Response api.Headers
    given = finished api md decode (default_gateway service) (default_error_handler api r) req

    Serves-IsErrorStatus :
        (code : MethodCode) (registration : RegistrationCode) (vars : Map Str)
        (sent : Request api.Headers md.Metadata) (before : W) (out : Outcome api.Headers × W)
        → Serves api md runtime code (methods code) registration vars sent before out
        → IsErrorStatus (given out.0).status
    unfolding new_gateway default_error_handler status_of handle_error map_code_to_status
    Serves-IsErrorStatus code registration vars sent before out (unreadable e) =
        subst IsErrorStatus (sym (handle_error-kept api _ _ refl)) (omega arith, omega arith)
    Serves-IsErrorStatus code registration vars sent before out
          (refused {status} read filled no_reply) =
        let same : down ≡ status = cc (sym (outage.refuses code _ before) ∙ no_reply) in
        subst (λ (s : Status). IsErrorStatus (map_code_to_status s.code)) same
          (down-IsErrorStatus down outage.fails)
    Serves-IsErrorStatus code registration vars sent before out (replied read filled done_reply) =
        absurd (cc (sym (outage.refuses code _ before) ∙ done_reply))

    Answered-IsErrorStatus :
        (templates : List (MethodDefinition × List Template))
        (sent : Request api.Headers md.Metadata) (before : W) (out : Outcome api.Headers × W)
        → Answered api md runtime naming options In Out methods decode none default
            service.package_name templates sent before out
        → IsErrorStatus (given out.0).status
    unfolding new_gateway default_error_handler status_of
    Answered-IsErrorStatus templates sent before out (unmatched lost) = (omega arith, omega arith)
    Answered-IsErrorStatus templates sent before out (forbidden route failed) = absurd (cc failed)
    Answered-IsErrorStatus templates sent before out (served f route passed serves) =
        Serves-IsErrorStatus _ _ _ _ before out serves

    Delivered-IsErrorStatus :
        (templates : List (MethodDefinition × List Template)) (out : Outcome api.Headers × W)
        → Delivered api md runtime naming options In Out methods decode
            (default_gateway service)
            service.package_name
            templates
            (default_error_handler api r)
            req
            w
            out
        → (resp : Response api.Headers) × (out.0 ≡ success resp) × IsErrorStatus resp.status
    unfolding new_gateway default_error_handler status_of
    Delivered-IsErrorStatus templates out (oversized large) = absurd (cc large)
    Delivered-IsErrorStatus templates out (answered {o} {after} fits a) =
        (given o, refl, Answered-IsErrorStatus templates _ _ (o, after) a)

    -- While the gRPC service refuses every call with a status that is not OK, a gateway with the
    -- defaults answers every request with a client or server error, between 400 and 504, and never
    -- with success.
    pub handled-IsErrorStatus :
        (templates : List (MethodDefinition × List Template))
        → service.methods ≡ methods_of templates
        → SpellsAll templates
        → (resp : Response api.Headers) × ((handled api md Cors Compression Token W decode
              (default_gateway service)
              req
              w).0
            ≡ success resp)
          × (400 ≤ resp.status)
          × (resp.status ≤ 504)
    unfolding new_gateway
    handled-IsErrorStatus templates e spells =
        let (resp, same, bounds) = Delivered-IsErrorStatus templates _ (
          handled-Delivered api md runtime naming options In Out methods decode
            (default_gateway service) service templates (default_error_handler api r) req w refl
            refl e spells) in
        (resp, same, bounds.0, bounds.1)
