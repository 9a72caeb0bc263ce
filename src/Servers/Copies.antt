-- ===== src/Servers/Copies.antt =====
-- What the actix gateway keeps of the headers.
use grpc_gateway_rust.Prelude.{
  ℕ, ◌≡◌, ◌≤◌, refl, sym, subst, ap, ◌∙◌, Bool-cases, Option-cases, inl, inr, false, Option, none,
  some, List, [], ◌∷◌, Str, str_eq, length, if◌then◌else◌, arith,
}
use grpc_gateway_rust.Http.{HeaderApi, one_value, values_of}
use grpc_gateway_rust.Http.Message.{Request, Response, Service, success}
use grpc_gateway_rust.Http.LastValue.{last_or, last_or-cons}
use grpc_gateway_rust.Router.{Router, match_request}
use grpc_gateway_rust.Router.Mapping.{map_router, match_request-map_router}
use grpc_gateway_rust.Utilities.Sharing.{new_sync, get_locked}
use grpc_gateway_rust.Gateway.{set_params}
use grpc_gateway_rust.Servers.Actix.{
  ActixRequest, HttpResponse, Bridge, copy_request_headers, copy_response_headers, bridge_response,
  bridge_request, handle_matched, gateway_handler,
}

-- The first of the values, alone.
abbrev pub first_alone : List Str → List Str
first_alone [] = []
first_alone (v ∷ vs) = one_value v

-- The values that come with the name `k`.
abbrev pub named_values : Str → List (Option Str × Str) → List Str
named_values k [] = []
named_values k ((none, v) ∷ es) = named_values k es
named_values k ((some j, v) ∷ es) =
    let rest = named_values k es in if str_eq j k then v ∷ rest else rest

-- The names put back: a value without a name belongs to the name before it.
abbrev pub renamed : Option Str → List (Option Str × Str) → List (Str × Str)
renamed current [] = []
renamed current ((some j, v) ∷ es) = (j, v) ∷ renamed (some j) es
renamed (some j) ((none, v) ∷ es) = (j, v) ∷ renamed (some j) es
renamed none ((none, v) ∷ es) = renamed none es

-- What `HeaderMap::into_iter` documents: a further value of a name comes after the first, without its
-- name, and every name comes once.
pub record IsIntoIter (api : HeaderApi) (bridge : Bridge api.Headers) (h : api.Headers)
    : Type 0 where
  pub renamed_values : (k : Str) → values_of k (renamed none (bridge.into_iter h)) ≡ api.get_all k h
  pub once : (k : Str) → length (named_values k (bridge.into_iter h)) ≤ 1

-- A name or a value of one version of the crate http is one of the other.
pub record IsCompatible {H : Type 0} (bridge : Bridge H) : Type 0 where
  pub names : (k : Str) → bridge.to_name k ≡ some k
  pub values : (v : Str) → bridge.to_value v ≡ some v

-- The name before, if there is one, is another.
abbrev Misses : Str → Option Str → Type 0
Misses k none = Unit {0}
Misses k (some j) = str_eq j k ≡ false

first_alone-renamed :
    (k : Str) (current : Option Str) (es : List (Option Str × Str))
    → Misses k current
    → first_alone (values_of k (renamed current es)) ≡ first_alone (named_values k es)
first_alone-renamed k current [] m = refl
first_alone-renamed k current ((some j, v) ∷ es) m = elim (Bool-cases (str_eq j k)) [
  | inl same ↦ rw same
  | inr other ↦ rw other (first_alone-renamed k (some j) es other)
]
first_alone-renamed k none ((none, v) ∷ es) m = first_alone-renamed k none es m
first_alone-renamed k (some j) ((none, v) ∷ es) m = rw m (first_alone-renamed k (some j) es m)

last_or-named_values : (vs : List Str) → length vs ≤ 1 → last_or [] vs ≡ first_alone vs
last_or-named_values [] h = refl
last_or-named_values (v ∷ []) h = refl
last_or-named_values (v ∷ u ∷ vs) h = absurd (omega arith)

module _ (api actix : HeaderApi) (bridge : Bridge api.Headers) where
  -- The response that the handler makes of a response of the service.
  pub record Bridged (resp : Response api.Headers) (out : HttpResponse actix.Headers) : Type 0 where
    pub status : bridge.to_status resp.status ≡ some out.status
    pub body : bridge.collect resp.body ≡ some out.body
    pub headers : (k : Str) → actix.get_all k out.headers ≡ first_alone (api.get_all k resp.headers)

module _ (api actix : HeaderApi) (bridge : Bridge api.Headers) (same : IsCompatible bridge) where
  abbrev headers_of : {M : Type 0} → Option (Request api.Headers M) → Option api.Headers
  headers_of none = none
  headers_of (some req) = some req.headers

  copy_request_headers_lem :
      (k : Str) (es : List (Str × Str)) (h : api.Headers)
      → api.get_all k (copy_request_headers api actix bridge es h)
        ≡ last_or (api.get_all k h) (values_of k es)
  unfolding copy_request_headers
  copy_request_headers_lem k [] h = refl
  copy_request_headers_lem k ((j, v) ∷ es) h =
      rw (copy_request_headers, same.names j, same.values v)
        (copy_request_headers_lem k es (api.insert_header j v h)
          ∙ rw (api.get_all-insert_header j k v h) (elim (Bool-cases (str_eq j k)) [
            | inl e ↦ rw (e, last_or-cons (api.get_all k h) v (values_of k es))
            | inr e ↦ rw e
          ]))

  copy_response_headers_lem :
      (k : Str) (es : List (Option Str × Str)) (h : actix.Headers)
      → actix.get_all k (copy_response_headers api actix bridge es h)
        ≡ last_or (actix.get_all k h) (named_values k es)
  unfolding copy_response_headers
  copy_response_headers_lem k [] h = refl
  copy_response_headers_lem k ((none, v) ∷ es) h = copy_response_headers_lem k es h
  copy_response_headers_lem k ((some j, v) ∷ es) h =
      rw (copy_response_headers, same.names j, same.values v)
        (copy_response_headers_lem k es (actix.insert_header j v h)
          ∙ rw (actix.get_all-insert_header j k v h) (elim (Bool-cases (str_eq j k)) [
            | inl e ↦ rw (e, last_or-cons (actix.get_all k h) v (named_values k es))
            | inr e ↦ rw e
          ]))

  bridge_response-Bridged :
      (resp : Response api.Headers) (status : ℕ) (bytes : Str)
      → IsIntoIter api bridge resp.headers
      → bridge.collect resp.body ≡ some bytes
      → bridge.to_status resp.status ≡ some status
      → (out : HttpResponse actix.Headers) × (bridge_response api actix bridge resp ≡ some out)
        × Bridged api actix bridge resp out
  unfolding bridge_response
  bridge_response-Bridged resp status bytes iter read known =
      let headers =
        copy_response_headers api actix bridge (bridge.into_iter resp.headers) actix.no_headers in
      (
        record { status = status; headers = headers; body = bytes },
        rw (bridge_response, read, known),
        record {
          status = known;
          body = read;
          headers = λ k.
              copy_response_headers_lem k (bridge.into_iter resp.headers) actix.no_headers
              ∙ rw (actix.get_all-no_headers k) (
                  last_or-named_values (named_values k (bridge.into_iter resp.headers))
                    (iter.once k)
                  ∙ sym (first_alone-renamed k none (bridge.into_iter resp.headers) tt)
                  ∙ ap first_alone (iter.renamed_values k));
        },
      )

  bridge_request-headers :
      {M : Type 0} (req : ActixRequest) (sent : Request api.Headers M)
      → bridge_request api actix bridge req ≡ some sent
      → (k : Str) → api.get_all k sent.headers ≡ last_or [] (values_of k req.headers)
  unfolding bridge_request
  bridge_request-headers req sent made k = elim (Option-cases (bridge.to_method req.method)) [
    | inl bad ↦ absurd (cc (rw (bad, bridge_request) at made))
    | inr (method, m) ↦ elim (Option-cases (bridge.to_uri req.uri)) [
      | inl bad ↦ absurd (cc (rw (m, bad, bridge_request) at made))
      | inr (uri, u) ↦
          let sent_headers : some (copy_request_headers api actix bridge req.headers api.no_headers)
              ≡ some sent.headers =
            sym (rw (bridge_request, m, u)) ∙ ap headers_of made in
          subst (λ h. api.get_all k h ≡ last_or [] (values_of k req.headers)) (cc sent_headers)
            (copy_request_headers_lem k req.headers api.no_headers ∙ rw (api.get_all-no_headers k))
    ]
  ]

  module _ {M W : Type 0} (router : Router (Service api.Headers M W)) (req : ActixRequest)
      (w : W) where
    -- Of several values of one header, the service is given the last, and the client, of those of the
    -- response, the first; the status and the body of the response are kept: where the conversions keep
    -- names and values, the body can be collected, and the service answers with a response.
    pub gateway_handler-Bridged :
        (sent : Request api.Headers M) (s : Service api.Headers M W) (params : _) (metadata : _)
        (resp : Response api.Headers) (after : W) (status : ℕ) (bytes : Str)
        → bridge_request api actix bridge req ≡ some sent
        → match_request router sent.method req.path ≡ some (s, params, metadata)
        → s (set_params params sent) w ≡ (success resp, after)
        → IsIntoIter api bridge resp.headers
        → bridge.collect resp.body ≡ some bytes
        → bridge.to_status resp.status ≡ some status
        → ((k : Str) → api.get_all k sent.headers ≡ last_or [] (values_of k req.headers))
          × ((out : HttpResponse actix.Headers) × (gateway_handler api actix bridge
                  (map_router new_sync router)
                  req
                  w
                ≡ (some out, after))
              × Bridged api actix bridge resp out)
    unfolding gateway_handler handle_matched get_locked
    gateway_handler-Bridged sent s params metadata resp after status bytes made found called iter
          read known =
        let (out, bridged, copied) = bridge_response-Bridged resp status bytes iter read known in
        (
          bridge_request-headers req sent made,
          (
            out,
            rw (
              made,
              gateway_handler,
              match_request-map_router new_sync router sent.method req.path,
              found,
              handle_matched,
              called,
              bridged,
            ),
            copied,
          ),
        )
