-- ===== src/Gateway/Answering.antt =====
-- What the inner stack of a gateway makes of every request, from the headers to the response.
use mathlib.Core.List.{foldl}
use grpc_gateway_rust.Prelude.{
  ℕ, ◌≡◌, refl, ap, sym, subst, Bool-cases, inl, inr, true, false, Option, none, some, List, [],
  ◌∷◌, Str, lit,
}
use grpc_gateway_rust.Http.{HeaderApi, MetadataApi}
use grpc_gateway_rust.Http.Message.{
  Request, Response, Body, Outcome, success, failure, no_extensions,
}
use grpc_gateway_rust.Errors.{custom}
use grpc_gateway_rust.Layers.Governance.{limited, too_large, limit_response, limit_call}
use grpc_gateway_rust.Layers.Error.{ErrorHandler, error_call}
use grpc_gateway_rust.Layers.Response.{ResponseModifier, modify, modify_outcome, response_call}
use grpc_gateway_rust.Layers.Headers.{match_headers, match_response, header_call}
use grpc_gateway_rust.Layers.Metadata.{metadata_call}
use grpc_gateway_rust.Gateway.{RouterService, router_call}
use grpc_gateway_rust.Gateway.Builder.{Gateway, limited_service, handled}
use grpc_gateway_rust.Gateway.Dispatch.{Answers, router_call-Answers}
use grpc_gateway_rust.Gateway.Stack.{annotate-Keeps, prepared}

abbrev pub limited_body : Option ℕ → Body → Body
limited_body none body = body
limited_body (some limit) body = limited limit body

module _ (api : HeaderApi) (md : MetadataApi) {Cors Compression Token W : Type 0}
    (decode : Str → Option Str) (g : Gateway api md Cors Compression Token W) where
  -- What an error handler or a modifier is given of a request.
  abbrev pub kept : Request api.Headers md.Metadata → Request api.Headers md.Metadata
  kept req = record req { version = 11; extensions = no_extensions; body = [] }

  -- What the client gets of an outcome of the dispatch: of an error, what the handler makes of it; of a
  -- response, that response with its body limited and its headers matched, after all modifiers in
  -- order.
  abbrev pub finished :
      ErrorHandler api.Headers md.Metadata
      → Request api.Headers md.Metadata
      → Outcome api.Headers
      → Response api.Headers
  finished h req (failure e) = h (kept req) e
  finished h req (success resp) =
      foldl (λ (r : Response api.Headers) modifier. modifier (kept req) r)
        (record resp {
          headers = match_headers api g.outgoing_header_matcher resp.headers;
          body = limited_body g.governance_config.max_response_body_size resp.body;
        })
        g.response_modifiers

  abbrev pub router_of : RouterService api.Headers md.Metadata W
  router_of = record {
    router = g.router;
    auth_verifier = g.auth_verifier;
    unescaping_mode = g.unescaping_mode;
  }

  -- The specification of the stack: a body above the limit, and every other request, which the
  -- dispatch answers after its headers were matched and its metadata annotated.
  pub data Handled (h : ErrorHandler api.Headers md.Metadata)
      (req : Request api.Headers md.Metadata) (w : W) : Outcome api.Headers × W → Type 0 where
    oversized :
        too_large g.governance_config.max_request_body_size req.body ≡ true
        → Handled h req w (
          success (finished h req (failure (custom 413 (lit "Request body too large")))),
          (prepared api md decode g req w).1,
        )
    dispatched :
        {o : Outcome api.Headers} {after : W}
        → too_large g.governance_config.max_request_body_size req.body ≡ false
        → Answers decode router_of
            (prepared api md decode g req w).0
            (prepared api md decode g req w).1
            (o, after)
        → Handled h req w (success (finished h req o), after)

  modify-foldl :
      (modifiers : List (ResponseModifier api.Headers md.Metadata))
      (req : Request api.Headers md.Metadata) (resp : Response api.Headers)
      → modify modifiers req resp ≡ foldl (λ r modifier. modifier req r) resp modifiers
  modify-foldl [] req resp = refl
  modify-foldl (modifier ∷ rest) req resp = modify-foldl rest req (modifier req resp)

  modify_outcome-foldl :
      (modifiers : List (ResponseModifier api.Headers md.Metadata))
      (req : Request api.Headers md.Metadata) (resp : Response api.Headers)
      → modify_outcome modifiers req (success resp)
        ≡ success (foldl (λ r modifier. modifier req r) resp modifiers)
  modify_outcome-foldl [] req resp = refl
  modify_outcome-foldl (modifier ∷ rest) req resp =
      ap success (modify-foldl rest req (modifier req resp))

  limit_response-limited_body :
      (max_resp : Option ℕ) (resp : Response api.Headers)
      → limit_response max_resp (success resp)
        ≡ success (record resp { body = limited_body max_resp resp.body })
  unfolding limit_response
  limit_response-limited_body none resp = refl
  limit_response-limited_body (some limit) resp = refl

  -- What the layers around the limits make of their outcome.
  around-finished :
      (h : ErrorHandler api.Headers md.Metadata) (req : Request api.Headers md.Metadata) (w : W)
      (o : Outcome api.Headers) (after : W)
      → g.error_handler ≡ some h
      → limited_service api md Cors Compression Token W decode g
          (prepared api md decode g req w).0
          (prepared api md decode g req w).1
        ≡ (limit_response g.governance_config.max_response_body_size o, after)
      → handled api md Cors Compression Token W decode g req w ≡ (success (finished h req o), after)
  unfolding error_call response_call header_call metadata_call limit_response match_response
  around-finished h req w (failure e) after handler inner = rw (inner, handler)
  around-finished h req w (success resp) after handler inner =
      rw (inner, limit_response-limited_body, modify_outcome-foldl)

  module _ (h : ErrorHandler api.Headers md.Metadata) (req : Request api.Headers md.Metadata)
      (w : W) (handler : g.error_handler ≡ some h) where
    body_kept : (prepared api md decode g req w).0.body ≡ req.body
    body_kept =
        (annotate-Keeps md g.metadata_annotators
          (record req { headers = match_headers api g.incoming_header_matcher req.headers }) w).2

    pub handled-oversized :
        too_large g.governance_config.max_request_body_size req.body ≡ true
        → handled api md Cors Compression Token W decode g req w ≡ (
          success (finished h req (failure (custom 413 (lit "Request body too large")))),
          (prepared api md decode g req w).1,
        )
    unfolding limit_call limit_response
    handled-oversized large =
        around-finished h req w (failure (custom 413 (lit "Request body too large")))
          (prepared api md decode g req w).1 handler (rw (body_kept, large))

    pub handled-router_call :
        too_large g.governance_config.max_request_body_size req.body ≡ false
        → handled api md Cors Compression Token W decode g req w ≡ (
          success (
              finished h req
                (router_call decode router_of
                  (prepared api md decode g req w).0
                  (prepared api md decode g req w).1).0),
          (router_call decode router_of
              (prepared api md decode g req w).0
              (prepared api md decode g req w).1).1,
        )
    unfolding limit_call
    handled-router_call fits = around-finished h req w _ _ handler (rw (body_kept, fits))

  -- With an error handler, the stack answers every request with a response. It is that of the handler
  -- for a body above its limit, and for every error of the dispatch, whose request has the matched
  -- headers and the metadata of the annotators; for a response of a route it is that response with its
  -- body limited, its headers matched, and then changed by the modifiers. The handler and the modifiers
  -- are given the original method, URI and headers.
  pub handled-Handled :
      (h : ErrorHandler api.Headers md.Metadata) (req : Request api.Headers md.Metadata) (w : W)
      → g.error_handler ≡ some h
      → Handled h req w (handled api md Cors Compression Token W decode g req w)
  handled-Handled h req w handler =
      elim (Bool-cases (too_large g.governance_config.max_request_body_size req.body)) [
        | inl large ↦
            subst (Handled h req w) (sym (handled-oversized h req w handler large))
              (oversized large)
        | inr fits ↦ subst (Handled h req w) (sym (handled-router_call h req w handler fits)) (
            dispatched fits (
              router_call-Answers decode router_of (prepared api md decode g req w).0
                (prepared api md decode g req w).1))
      ]
