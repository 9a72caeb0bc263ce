-- ===== src/Utilities/Laws.antt =====
-- What a shared service answers, and the two ways to parse a body.
use grpc_gateway_rust.Prelude.{
  ◌≡◌, refl, ap, subst, true, false, Option, none, some, List, [], ◌∷◌, Str, lit, map, contains,
  starts_with,
}
use grpc_gateway_rust.Http.{HeaderApi}
use grpc_gateway_rust.Codec.{as_codec, decode_as}
use grpc_gateway_rust.Codec.Formats.{Serde, Prost, default_multimedia, json_codec}
use grpc_gateway_rust.Utilities.{
  BodyApi, or_empty, content_type_header, parse_body, parse_body_no_std, non_empty,
}
use grpc_gateway_rust.Utilities.Sharing.{SyncService, new_sync, sync_call, get_locked}

module _ {S R F : Type 0} (call : S → R → Option F × S) where
  -- The answers to requests, one after the other, and the service afterwards; none is a panic.
  unfoldable pub sync_calls : SyncService S → List R → List (Option F) × SyncService S
  unfolding sync_call
  sync_calls service [] = ([], service)
  sync_calls service (req ∷ rest) =
      let out = sync_call call service req in
      let later = sync_calls out.1 rest in (out.0 ∷ later.0, later.1)

  -- The answers of the service itself up to its first panic, and panics from there on, with the service
  -- left in the state of its last call.
  pub data Shares : S → List R → List (Option F) × SyncService S → Type 0 where
    no_call : {s : S} → Shares s [] ([], new_sync s)
    answers :
        {s : S} {req : R} {rest : List R} {future : F} {os : List (Option F)} {t : SyncService S}
        → (call s req).0 ≡ some future
        → Shares (call s req).1 rest (os, t)
        → Shares s (req ∷ rest) (some future ∷ os, t)
    panics :
        {s : S} {req : R} {rest : List R}
        → (call s req).0 ≡ none
        → Shares s
            (req ∷ rest)
            (map (λ r. none) (req ∷ rest), record { inner = (call s req).1; poisoned = true })

  sync_calls-poisoned :
      (s : S) (reqs : List R)
      → sync_calls (record { inner = s; poisoned = true }) reqs
        ≡ (map (λ r. none) reqs, record { inner = s; poisoned = true })
  unfolding sync_calls sync_call get_locked
  sync_calls-poisoned s [] = refl
  sync_calls-poisoned s (req ∷ rest) = ap (λ p. (none ∷ p.0, p.1)) (sync_calls-poisoned s rest)

  Shares-step :
      (s : S) (req : R) (rest : List R) (o : Option F) (t : S)
      → call s req ≡ (o, t)
      → Shares t rest (sync_calls (new_sync t) rest)
      → Shares s (req ∷ rest) (sync_calls (new_sync s) (req ∷ rest))
  unfolding sync_calls sync_call get_locked
  Shares-step s req rest none t e later =
      rw (e, sync_calls-poisoned t rest)
        (subst
          (λ u.
            Shares s (req ∷ rest)
              (map (λ r. none) (req ∷ rest), record { inner = u; poisoned = true }))
          (ap (λ p. p.1) e) (panics (ap (λ p. p.0) e)))
  Shares-step s req rest (some future) t e later = rw e (answers (ap (λ p. p.0) e) (rw e later))

  -- A shared service answers as the service itself does, up to the first panic; after that every call
  -- panics, and the service is not asked: it stays in the state of the call that panicked.
  pub sync_calls-Shares : (s : S) (reqs : List R) → Shares s reqs (sync_calls (new_sync s) reqs)
  unfolding sync_calls
  sync_calls-Shares s [] = no_call
  sync_calls-Shares s (req ∷ rest) =
      Shares-step s req rest (call s req).0 (call s req).1 refl
        (sync_calls-Shares (call s req).1 rest)

-- With the default codec, a body that is not multipart is parsed in the same way with the standard
-- library and without it.
pub parse_body-parse_body_no_std :
    {T : Type 0} (bodies : BodyApi T) (serde : Serde T) (prost : Prost T) (api : HeaderApi)
    (headers : api.Headers) (body : Str)
    → starts_with (or_empty (content_type_header api headers)) (lit "multipart/form-data") ≡ false
    → parse_body bodies (as_codec (default_multimedia serde prost)) api headers body
      ≡ parse_body_no_std (as_codec (default_multimedia serde prost)) api headers body
unfolding parse_body parse_body_no_std decode_as json_codec contains
parse_body-parse_body_no_std bodies serde prost api headers body h =
    rw (h, parse_body) (along (content_type_header api headers))
  where
    along :
        (found : Option Str)
        → decode_as (default_multimedia serde prost) body (non_empty (or_empty found))
          ≡ decode_as (default_multimedia serde prost) body found
    along none = refl
    along (some []) = refl
    along (some (c ∷ s)) = refl
