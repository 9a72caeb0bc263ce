-- ===== src/Gateway/Availability.antt =====
-- What a gateway answers whatever stands inside it.
use grpc_gateway_rust.Prelude.{
  ◌≡◌, ◌≢◌, refl, sym, ◌∙◌, subst, ◌⊎◌, inl, inr, Option, none, some, Str, lit, str_eq, str_eq_iff,
  str_eq-false, ap, Bool-cases, ◌++◌, Option-cases,
}
use grpc_gateway_rust.Http.{HeaderApi, MetadataApi}
use grpc_gateway_rust.Http.Message.{Request, Response, Outcome, success, failure}
use grpc_gateway_rust.Errors.{custom}
use grpc_gateway_rust.Layers.Health.{HealthCheckConfig, new_health, serving_response, health_call}
use grpc_gateway_rust.Layers.Body.{box_response_body}
use grpc_gateway_rust.Gateway.Builder.{Gateway}
use grpc_gateway_rust.Gateway.Outer.{
  TowerLayers, BoxError, BoxOutcome, display_box, succeeded, failed, of_box_outcome, box_outcome,
  boxed_service, governed_stack, normalized_stack, service_with_health, into_service,
}

module _ (api : HeaderApi) (md : MetadataApi) (Cors Compression Token W : Type 0)
    (decode : Str → Option Str) (layers : TowerLayers api.Headers md.Metadata W Cors Compression)
    (g : Gateway api md Cors Compression Token W) where
  -- A probe: a GET of the path of liveness or readiness of the configuration.
  pub data IsProbe (req : Request api.Headers md.Metadata) : Type 0 where
    probe :
        {h : HealthCheckConfig}
        → g.health_check_config ≡ some h
        → req.method ≡ lit "GET"
        → (req.path ≡ h.liveness_path) ⊎ (req.path ≡ h.readiness_path)
        → IsProbe req

  -- The answers of the stack: probes, and what the governed stack answers.
  pub data Outcomes (req : Request api.Headers md.Metadata) (w : W)
      : Outcome api.Headers × W → Type 0 where
    probed : IsProbe req → Outcomes req w (success (serving_response api layers.full), w)
    answered :
        {resp : Response api.Headers} {after : W}
        → (IsProbe req → ⊥)
        → layers.govern g.governance_config
            (boxed_service api md Cors Compression Token W decode layers g)
            req
            w
          ≡ (succeeded resp, after)
        → Outcomes req w (success (box_response_body layers.to_string resp), after)
    failing :
        {e : BoxError} {after : W}
        → (IsProbe req → ⊥)
        → layers.govern g.governance_config
            (boxed_service api md Cors Compression Token W decode layers g)
            req
            w
          ≡ (failed e, after)
        → Outcomes req w (
          failure (custom 500 (lit "Governance error: " ++ display_box layers.to_string e)),
          after,
        )

  stack-Outcomes :
      (req : Request api.Headers md.Metadata) (w : W)
      → (IsProbe req → ⊥)
      → Outcomes req w (normalized_stack api md Cors Compression Token W decode layers g req w)
  unfolding normalized_stack governed_stack
  stack-Outcomes req w other = along _ refl
    where
      along :
          (answer : BoxOutcome api.Headers × W)
          → layers.govern g.governance_config
              (boxed_service api md Cors Compression Token W decode layers g)
              req
              w
            ≡ answer
          → Outcomes req w
              (box_outcome layers.to_string (of_box_outcome layers.to_string answer.0), answer.1)
      along (succeeded resp, after) e = answered other e
      along (failed e, after) f = failing other f

  no_probe :
      {h : HealthCheckConfig} (req : Request api.Headers md.Metadata)
      → g.health_check_config ≡ some h
      → (req.method ≢ lit "GET") ⊎ ((req.path ≢ h.liveness_path) × (req.path ≢ h.readiness_path))
      → IsProbe req
      → ⊥
  no_probe req found (inl other) (probe same method path) = other method
  no_probe {h} req found (inr (live, ready)) (probe {h = k} same method path) =
      let configs : some k ≡ some h = sym same ∙ found in
      let configured : k ≡ h = cc configs in
      elim path [
        | inl p ↦ live (p ∙ ap (λ c. c.liveness_path) configured)
        | inr p ↦ ready (p ∙ ap (λ c. c.readiness_path) configured)
      ]

  uncompressed :
      (req : Request api.Headers md.Metadata) (w : W)
      → g.compression_layer ≡ none
      → into_service api md Cors Compression Token W decode layers g req w
        ≡ service_with_health api md Cors Compression Token W decode layers g req w
  unfolding into_service
  uncompressed req w e = rw (e, into_service)

  unprobed :
      (req : Request api.Headers md.Metadata) (w : W)
      → g.health_check_config ≡ none
      → service_with_health api md Cors Compression Token W decode layers g req w
        ≡ normalized_stack api md Cors Compression Token W decode layers g req w
  unfolding service_with_health
  unprobed req w e = rw (e, service_with_health)

  with_probes :
      (req : Request api.Headers md.Metadata) (w : W) (h : HealthCheckConfig)
      → g.health_check_config ≡ some h
      → service_with_health api md Cors Compression Token W decode layers g req w
        ≡ health_call api layers.full
            (new_health api layers.full
              (normalized_stack api md Cors Compression Token W decode layers g)
              layers.report
              h)
            req
            w
  unfolding service_with_health
  with_probes req w h e = rw (e, service_with_health)

  -- A gateway without compression answers the probes that are configured with 200, without running
  -- anything else, however the layers of tower limit the rest. Every other request gets the answer of
  -- the governed stack with its body boxed, or, for an error that reaches this place, an error of
  -- status 500.
  pub into_service-Outcomes :
      (req : Request api.Headers md.Metadata) (w : W)
      → g.compression_layer ≡ none
      → Outcomes req w (into_service api md Cors Compression Token W decode layers g req w)
  unfolding health_call
  into_service-Outcomes req w e = elim (Option-cases g.health_check_config) [
    | inl missing ↦
        subst (Outcomes req w) (sym (uncompressed req w e ∙ unprobed req w missing))
          (stack-Outcomes req w (λ p. elim p [ probe same method path ↦ cc (sym missing ∙ same) ]))
    | inr (h, found) ↦
        subst (Outcomes req w) (sym (uncompressed req w e ∙ with_probes req w h found))
          (answer h found)
  ]
    where
      answer :
          (h : HealthCheckConfig)
          → g.health_check_config ≡ some h
          → Outcomes req w (
              health_call api layers.full
                (new_health api layers.full
                  (normalized_stack api md Cors Compression Token W decode layers g)
                  layers.report
                  h)
                req
                w)
      answer h found = elim (Bool-cases (str_eq req.method (lit "GET"))) [
        | inr other ↦
            rw (other, health_call)
              (stack-Outcomes req w (no_probe req found (inl (str_eq-false _ _ other))))
        | inl get ↦ elim (Bool-cases (str_eq req.path h.liveness_path)) [
          | inl live ↦
              rw (get, live, health_call)
                (probed (probe found ((str_eq_iff _ _).0 get) (inl ((str_eq_iff _ _).0 live))))
          | inr not_live ↦ elim (Bool-cases (str_eq req.path h.readiness_path)) [
            | inl ready ↦
                rw (get, not_live, ready, health_call)
                  (probed (probe found ((str_eq_iff _ _).0 get) (inr ((str_eq_iff _ _).0 ready))))
            | inr not_ready ↦
                rw (get, not_live, not_ready, health_call)
                  (stack-Outcomes req w (
                    no_probe req found
                      (inr (str_eq-false _ _ not_live, str_eq-false _ _ not_ready))))
          ]
        ]
      ]
