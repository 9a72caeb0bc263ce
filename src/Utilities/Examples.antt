-- ===== src/Utilities/Examples.antt =====
-- The theorems on utilities at a form of two fields and at a service that panics.
use grpc_gateway_rust.Prelude.{
  ℕ, suc, ◌≡◌, refl, ◌⊎◌, Option, none, some, List, [], ◌∷◌, Str, Map, lit, lookup, starts_with,
  str_eq, done, if◌then◌else◌, ◌==◌,
}
use grpc_gateway_rust.Http.Concrete.{list_headers}
use grpc_gateway_rust.Errors.{encoding}
use grpc_gateway_rust.Codec.{raised}
use grpc_gateway_rust.Codec.Examples.{tagged}
use grpc_gateway_rust.Utilities.{
  chunk, FieldPoll, field, JsonValue, BodyApi, or_encoding, content_type_header, parse_body,
}
use grpc_gateway_rust.Utilities.Sharing.{new_sync}
use grpc_gateway_rust.Utilities.Multipart.{Fields, BadFields, last_of, parse_body-Fields}
use grpc_gateway_rust.Utilities.Laws.{sync_calls, Shares, sync_calls-Shares}

-- A text field in two chunks, and a file without a name.
abbrev form : List FieldPoll
form =
    field (some (lit "title")) none (chunk (lit "ab") ∷ chunk (lit "c") ∷ [])
    ∷ field none (some (lit "f.bin")) (chunk (lit "x") ∷ [])
    ∷ []

abbrev pub form_api : BodyApi Str
form_api = record {
  parse_boundary = λ content_type. done (lit "b");
  fields = λ body boundary. form;
  from_value = λ object. done (lit "message");
}

abbrev form_type : Str
form_type = lit "multipart/form-data; boundary=b"

abbrev form_headers : List (Str × Str)
form_headers = (lit "content-type", form_type) ∷ []

parse_body-Fields_example :
    ((es object : Map JsonValue) × Fields form es
      × (parse_body form_api (tagged b'j') list_headers form_headers (lit "..")
          ≡ or_encoding (form_api.from_value object))
      × ((name : Str) → lookup name object ≡ last_of name es))
    ⊎ ((e : Str) × BadFields form e
        × (parse_body form_api (tagged b'j') list_headers form_headers (lit "..")
            ≡ raised (encoding e)))
parse_body-Fields_example =
    parse_body-Fields form_api (tagged b'j') list_headers form_headers (lit "..") form_type
      (lit "b") (unfold content_type_header str_eq in refl) (unfold starts_with in refl) refl

-- A counter that panics at two.
abbrev count : ℕ → ℕ → Option ℕ × ℕ
count n req = if n == 2 then (none, n) else (some n, suc n)

sync_calls-Shares_example :
    Shares count 0 (7 ∷ 7 ∷ 7 ∷ 7 ∷ []) (sync_calls count (new_sync 0) (7 ∷ 7 ∷ 7 ∷ 7 ∷ []))
sync_calls-Shares_example = sync_calls-Shares count 0 (7 ∷ 7 ∷ 7 ∷ 7 ∷ [])
