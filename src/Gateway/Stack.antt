-- ===== src/Gateway/Stack.antt =====
-- What the inner stack of a gateway answers.
use grpc_gateway_rust.Prelude.{
  ◌⊎◌, inl, inr, ◌≡◌, refl, false, Option, none, some, List, [], ◌∷◌, Str,
}
use grpc_gateway_rust.Http.{HeaderApi, MetadataApi}
use grpc_gateway_rust.Http.Message.{
  Request, Response, Outcome, success, failure, partial_request, no_extensions,
}
use grpc_gateway_rust.Errors.{GatewayError, no_route}
use grpc_gateway_rust.Router.{match_request}
use grpc_gateway_rust.Layers.Governance.{too_large, limit_response, limit_call}
use grpc_gateway_rust.Layers.Error.{ErrorHandler, error_call}
use grpc_gateway_rust.Layers.Response.{response_call}
use grpc_gateway_rust.Layers.Headers.{match_headers, match_response, header_call}
use grpc_gateway_rust.Layers.Metadata.{MetadataAnnotator, annotate, set_config, metadata_call}
use grpc_gateway_rust.Gateway.{unescape, dispatch, router_call}
use grpc_gateway_rust.Gateway.Builder.{Gateway, limited_service, modified, handled}

-- An annotator changes only the metadata of a request.
pub annotate-Keeps :
    (md : MetadataApi) {H W : Type 0} (annotators : List (MetadataAnnotator md H W))
    (req : Request H md.Metadata) (w : W)
    → ((annotate md annotators req w).0.method ≡ req.method)
      × ((annotate md annotators req w).0.path ≡ req.path)
      × ((annotate md annotators req w).0.body ≡ req.body)
      × ((annotate md annotators req w).0.headers ≡ req.headers)
unfolding annotate
annotate-Keeps md [] req w = (refl, refl, refl, refl)
annotate-Keeps md (annotator ∷ rest) req w = annotate-Keeps md rest _ _

module _ (api : HeaderApi) (md : MetadataApi) {Cors Compression Token W : Type 0}
    (decode : Str → Option Str) (g : Gateway api md Cors Compression Token W) where
  -- With an error handler, the stack answers every request with a response: that of what stands inside
  -- the error layer, or, for an error of the dispatch, of the verifier, of a route or of a limit, what
  -- the handler makes of it and of the method, URI and headers of the request.
  pub handled-success :
      (h : ErrorHandler api.Headers md.Metadata) (req : Request api.Headers md.Metadata) (w : W)
      → g.error_handler ≡ some h
      → ((resp : Response api.Headers) × ((modified api md Cors Compression Token W decode g req
              w).0
            ≡ success resp)
          × ((handled api md Cors Compression Token W decode g req w).0 ≡ success resp))
        ⊎ ((err : GatewayError) × ((modified api md Cors Compression Token W decode g req w).0
              ≡ failure err)
            × ((handled api md Cors Compression Token W decode g req w).0
                ≡ success (h (partial_request req) err)))
  unfolding error_call
  handled-success h req w e = total (modified api md Cors Compression Token W decode g req w).0 refl
    where
      total :
          (o : Outcome api.Headers)
          → (modified api md Cors Compression Token W decode g req w).0 ≡ o
          → ((resp : Response api.Headers) × ((modified api md Cors Compression Token W decode g req
                  w).0
                ≡ success resp)
              × ((handled api md Cors Compression Token W decode g req w).0 ≡ success resp))
            ⊎ ((err : GatewayError) × ((modified api md Cors Compression Token W decode g req w).0
                  ≡ failure err)
                × ((handled api md Cors Compression Token W decode g req w).0
                    ≡ success (h (partial_request req) err)))
      total (success resp) same = inl (resp, same, rw (e, same))
      total (failure err) same = inr (err, same, rw (e, same))

  -- The request as the dispatch gets it.
  abbrev pub prepared : Request api.Headers md.Metadata → W → Request api.Headers md.Metadata × W
  prepared req w =
      let renamed = record req {
        headers = match_headers api g.incoming_header_matcher req.headers;
      } in
      let out = annotate md g.metadata_annotators renamed w in
      (set_config md g.metadata_config out.0, out.1)

  modified-failure :
      (req : Request api.Headers md.Metadata) (w : W) (err : GatewayError)
      → (limited_service api md Cors Compression Token W decode g
          (prepared req w).0
          (prepared req w).1).0
        ≡ failure err
      → (modified api md Cors Compression Token W decode g req w).0 ≡ failure err
  unfolding response_call header_call metadata_call match_response
  modified-failure req w err e = rw e

  -- Where no route of the method matches the unescaped path and the body is within its limit, the
  -- client gets what the error handler makes of the original method, URI and headers and of the
  -- error for that; the response modifiers and the outgoing matcher are not applied to it.
  pub handled-no_route :
      (h : ErrorHandler api.Headers md.Metadata) (req : Request api.Headers md.Metadata) (w : W)
      → g.error_handler ≡ some h
      → too_large g.governance_config.max_request_body_size req.body ≡ false
      → match_request g.router req.method (unescape decode g.unescaping_mode req.path) ≡ none
      → (handled api md Cors Compression Token W decode g req w).0
        ≡ success (h (record req { version = 11; extensions = no_extensions; body = [] }) no_route)
  unfolding error_call
  handled-no_route h req w e fits missing =
      let renamed = record req {
        headers = match_headers api g.incoming_header_matcher req.headers;
      } in
      let (method, path, body, _) = annotate-Keeps md g.metadata_annotators renamed w in
      let lost : (limited_service api md Cors Compression Token W decode g (prepared req w).0
            (prepared req w).1).0
          ≡ failure no_route =
        unfold limit_call limit_response router_call dispatch in
        rw (body, method, path, fits, missing) in
      rw (modified-failure req w no_route lost, e)
