-- ===== src/Gateway/Dispatch.antt =====
-- Which service answers a request, and when none does.
use grpc_gateway_rust.Prelude.{◌≡◌, ◌∙◌, sym, Option-cases, inl, inr, Option, none, some, Str, Map}
use grpc_gateway_rust.Http.Message.{Request, Outcome, failure, Service}
use grpc_gateway_rust.Errors.{GatewayError, no_route}
use grpc_gateway_rust.Router.{RouteMetadata, Match, entries_of, match_request}
use grpc_gateway_rust.Router.Laws.{FirstMatch, match_request-FirstMatch_iff}
use grpc_gateway_rust.Gateway.{RouterService, unescape, verify, set_params, dispatch, router_call}

module _ (decode : Str → Option Str) {H M W : Type 0} where
  -- The first route of the method that matches the unescaped path.
  abbrev pub Routes : RouterService H M W → Request H M → Match (Service H M W) → Type 0
  Routes service req m =
      FirstMatch (unescape decode service.unescaping_mode req.path)
        (entries_of service.router req.method) m

  -- The specification of the dispatch: what a request is answered with, and the world after it.
  pub data Answers (service : RouterService H M W) (req : Request H M) (w : W)
      : Outcome H × W → Type 0 where
    unmatched :
        ((m : Match (Service H M W)) → Routes service req m → ⊥)
        → Answers service req w (failure no_route, w)
    refused :
        {s : Service H M W} {params : Map Str} {metadata : RouteMetadata} {e : GatewayError}
        → Routes service req (s, params, metadata)
        → verify service.auth_verifier req metadata ≡ some e
        → Answers service req w (failure e, w)
    served :
        {s : Service H M W} {params : Map Str} {metadata : RouteMetadata}
        → Routes service req (s, params, metadata)
        → verify service.auth_verifier req metadata ≡ none
        → Answers service req w (s (set_params params req) w)

  -- A request without a matching route is answered with the error for that; a request that the
  -- verifier refuses with the verifier's error, and in both cases no route is run and the world is
  -- unchanged; every other request by the first matching route, with the variables of its path.
  pub router_call-Answers :
      (service : RouterService H M W) (req : Request H M) (w : W)
      → Answers service req w (router_call decode service req w)
  unfolding router_call dispatch
  router_call-Answers service req w =
      let path = unescape decode service.unescaping_mode req.path in
      let first = match_request-FirstMatch_iff service.router req.method path in
      elim (Option-cases (match_request service.router req.method path)) [
        | inl missing ↦
            rw missing (unmatched (λ m route. absurd (cc (sym missing ∙ (first m).1 route))))
        | inr ((s, params, metadata), found) ↦
            let route = (first (s, params, metadata)).0 found in
            rw found (elim (Option-cases (verify service.auth_verifier req metadata)) [
              | inl passed ↦ rw (passed, dispatch) (served route passed)
              | inr (e, failed) ↦ rw (failed, dispatch) (refused route failed)
            ])
      ]
