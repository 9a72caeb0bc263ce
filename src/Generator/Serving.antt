-- ===== src/Generator/Serving.antt =====
-- What a generated service answers.
use grpc_gateway_rust.Prelude.{
  ◌≡◌, sym, some, List, [], ◌∷◌, map, Str, Map, Option, All, lookup, done, stopped, inl, inr,
  Attempt-cases, subst,
}
use grpc_gateway_rust.Http.{HeaderApi, MetadataApi, Status}
use grpc_gateway_rust.Http.Message.{Request, Outcome, success, failure}
use grpc_gateway_rust.Errors.{GatewayError, upstream}
use grpc_gateway_rust.Errors.Handling.{handle_error}
use grpc_gateway_rust.Codec.{returned, raised}
use grpc_gateway_rust.Grammar.{Template}
use grpc_gateway_rust.Compiler.Emit.{vars_of}
use grpc_gateway_rust.Matching.Routing.{Accepts}
use grpc_gateway_rust.Matching.Bound.{IsBound, Accepts-IsBound}
use grpc_gateway_rust.Bindings.{Parameter, MethodBinding}
use grpc_gateway_rust.Bindings.Services.{MethodDefinition}
use grpc_gateway_rust.Generator.{GeneratorOptions}
use grpc_gateway_rust.Generator.Setter.{Statement}
use grpc_gateway_rust.Generator.Service.{
  Naming, Population, population_of, unmarshal_of, MethodCode, RegistrationCode, registration_code,
}
use grpc_gateway_rust.Generator.Emitted.{
  Runtime, GrpcRequest, Reply, Method, populate, call_metadata, forward_reply, call_method,
  unmarshal_request, invalid_body, registered,
}
use grpc_gateway_rust.Forward.Answers.{Result-cases}

-- A message in which every path parameter has been set, in order, from the variable of its name.
pub data Populated {In : Type 0} (set_field : Statement → Str → In → In) (vars : Map Str)
    : List Population → In → In → Type 0 where
  all_set : {msg : In} → Populated set_field vars [] msg msg
  set_one :
      {p : Population} {ps : List Population} {msg out : In} {val : Str}
      → lookup p.key vars ≡ some val
      → Populated set_field vars ps (set_field p.setter val msg) out
      → Populated set_field vars (p ∷ ps) msg out

populate-Populated :
    {In : Type 0} (naming : Naming) (set_field : Statement → Str → In → In) (vars : Map Str)
    (params : List Parameter) (msg : In)
    → All (IsBound vars) (map (λ (p : Parameter). p.field_path) params)
    → Populated set_field vars
        (map (population_of naming) params)
        msg
        (populate set_field (some vars) (map (population_of naming) params) msg)
unfolding populate
populate-Populated naming set_field vars [] msg h = all_set
populate-Populated naming set_field vars (p ∷ ps) msg ((val, found), h) =
    rw (found, populate) (set_one found (populate-Populated naming set_field vars ps _ h))

module _ (api : HeaderApi) (md : MetadataApi) (runtime : Runtime md.Metadata) {In Out W : Type 0}
    (code : MethodCode) (method : Method code.server_streaming In Out md.Metadata W) where
  -- What the client is asked.
  abbrev pub asked : In → Request api.Headers md.Metadata → GrpcRequest In md.Metadata
  asked msg req = record { message = msg; metadata = call_metadata api md runtime req }

  -- The answers to a request with variables: a body that cannot be read, a call that the gRPC service
  -- refuses, and one that it answers.
  pub data Serves (registration : RegistrationCode) (vars : Map Str)
      (req : Request api.Headers md.Metadata) (w : W) : Outcome api.Headers × W → Type 0 where
    unreadable :
        {e : GatewayError}
        → unmarshal_request api md runtime code method registration.unmarshal req ≡ raised e
        → Serves registration vars req w (
          success (handle_error api runtime.reporting (invalid_body api md runtime code method e)),
          w,
        )
    refused :
        {msg out : In} {status : Status}
        → unmarshal_request api md runtime code method registration.unmarshal req ≡ returned msg
        → Populated method.set_field vars registration.population msg out
        → (method.client (asked out (record req { body = [] })) w).0 ≡ stopped status
        → Serves registration vars req w
            (failure (upstream status), (method.client (asked out (record req { body = [] })) w).1)
    replied :
        {msg out : In} {reply : Reply code.server_streaming Out}
        → unmarshal_request api md runtime code method registration.unmarshal req ≡ returned msg
        → Populated method.set_field vars registration.population msg out
        → (method.client (asked out (record req { body = [] })) w).0 ≡ done reply
        → Serves registration vars req w (
          forward_reply api md runtime code.server_streaming method.response_codec reply
              (record req { body = [] }),
          (method.client (asked out (record req { body = [] })) w).1,
        )

  pub registered-Serves :
      (naming : Naming) (options : GeneratorOptions) (package_name : Str)
      (definition : MethodDefinition) (b : MethodBinding) (req : Request api.Headers md.Metadata)
      (w : W) (t : Template) (path : Str) (vars : Map Str)
      → map (λ (p : Parameter). p.field_path) b.path_params ≡ vars_of t.segments
      → Accepts t path vars
      → req.extensions.params ≡ some vars
      → Serves (registration_code naming options package_name definition b) vars req w (
          registered api md runtime code method
            (registration_code naming options package_name definition b)
            req
            w)
  unfolding registration_code registered call_method
  registered-Serves naming options package_name definition b req w t path vars names a params =
      elim (Result-cases (unmarshal_request api md runtime code method (unmarshal_of b.body) req)) [
        | inr (e, failed) ↦ rw (failed, registered) (unreadable failed)
        | inl (msg, read) ↦
            let bound = subst (All (IsBound vars)) (sym names) (Accepts-IsBound t path vars a) in
            let fills : Option (Map Str) → In = λ found.
              populate method.set_field found (map (population_of naming) b.path_params) msg in
            let out = fills req.extensions.params in
            let filled =
              subst
                (λ found.
                  Populated method.set_field vars (map (population_of naming) b.path_params) msg
                    (fills found))
                (sym params)
                (populate-Populated naming method.set_field vars b.path_params msg bound) in
            elim (Attempt-cases (method.client (asked out (record req { body = [] })) w).0) [
              | inl (status, no_reply) ↦
                  rw (read, registered, call_method, no_reply) (refused read filled no_reply)
              | inr (reply, answered) ↦
                  rw (read, registered, call_method, answered) (replied read filled answered)
            ]
      ]
