-- ===== src/Metadata.antt =====
-- gateway-runtime/src/metadata.rs: the metadata that goes to the gRPC service, and its deadline.
pub mod Forwarding
pub mod Timeout
mod Examples
use grpc_gateway_rust.Prelude.{
  ℕ, ◌-◌, ◌*◌, ◌%◌, Bool, true, false, not, ◌&&◌, ◌||◌, Option, none, some, List, [], ◌∷◌, ◌++◌,
  Str, lit, str_eq, eq_ignore_ascii_case, to_lowercase, starts_with, ends_with, any, length, take,
  drop, is_empty, parse_uint, u64_mod, if◌then◌else◌, ◌>>=◌,
}
use grpc_gateway_rust.Http.{HeaderApi, MetadataApi, MetadataKind, ascii, binary, MetadataEntry}
use grpc_gateway_rust.Http.Message.{MetadataForwardingConfig, Request}
use grpc_gateway_rust.Layers.Metadata.{merge_entries}

-- `MetadataForwardingConfig::default()`
abbrev pub default_config : MetadataForwardingConfig
default_config = record {
  allowed_prefixes = lit "grpc-metadata-" ∷ [];
  allowed_headers =
      lit "authorization"
      ∷ lit "x-request-id"
      ∷ lit "x-b3-traceid"
      ∷ lit "x-b3-spanid"
      ∷ lit "x-b3-parentspanid"
      ∷ lit "x-b3-sampled"
      ∷ lit "x-b3-flags"
      ∷ lit "x-ot-span-context"
      ∷ lit "traceparent"
      ∷ lit "tracestate"
      ∷ [];
}

-- The headers of the transport.
unfoldable pub is_restricted : Str → Bool
is_restricted key =
    eq_ignore_ascii_case key (lit "content-type")
    || eq_ignore_ascii_case key (lit "content-length")
    || eq_ignore_ascii_case key (lit "host")
    || eq_ignore_ascii_case key (lit "connection")
    || eq_ignore_ascii_case key (lit "keep-alive")
    || eq_ignore_ascii_case key (lit "proxy-authenticate")
    || eq_ignore_ascii_case key (lit "proxy-authorization")
    || eq_ignore_ascii_case key (lit "te")
    || eq_ignore_ascii_case key (lit "trailer")
    || eq_ignore_ascii_case key (lit "transfer-encoding")
    || eq_ignore_ascii_case key (lit "upgrade")

unfoldable pub is_allowed : MetadataForwardingConfig → Str → Bool
is_allowed config key =
    any (λ h. eq_ignore_ascii_case key h) config.allowed_headers
    || any (λ p. starts_with (to_lowercase key) (to_lowercase p)) config.allowed_prefixes

unfoldable pub final_key : Str → Str
final_key key =
    if not (eq_ignore_ascii_case key (lit "authorization"))
      && not (eq_ignore_ascii_case key (lit "grpc-timeout"))
      && not (starts_with key (lit "x-"))
      && not (starts_with key (lit "grpc-"))
    then lit "x-" ++ key
    else key

-- The configuration of the request, or the default one.
abbrev pub config_of : Option MetadataForwardingConfig → MetadataForwardingConfig
config_of none = default_config
config_of (some config) = config

module _ (headers : HeaderApi) (api : MetadataApi) where
  abbrev pub binary_entry : Str → Str → Option MetadataEntry
  binary_entry key value =
      api.parse_key binary key >>= (λ k. some (record { kind = binary; key = k; value = value }))

  abbrev pub ascii_entry : Str → Str → Option MetadataEntry
  ascii_entry key value =
      api.parse_key ascii key
      >>= (λ k. api.parse_ascii value >>= (λ v. some (record { kind = ascii; key = k; value = v })))

  -- The entry that a header becomes.
  unfoldable pub entry_of_header : MetadataForwardingConfig → Str → Str → Option MetadataEntry
  unfolding is_restricted is_allowed final_key
  entry_of_header config key value =
      if is_restricted key
      then none
      else if not (is_allowed config key)
      then none
      else if ends_with (final_key key) (lit "-bin")
      then binary_entry (final_key key) value
      else ascii_entry (final_key key) value

  abbrev pub put_optional : Option MetadataEntry → api.Metadata → api.Metadata
  put_optional none m = m
  put_optional (some e) m = api.put_entry e m

  -- The loop over the headers.
  unfoldable pub forward_headers :
      MetadataForwardingConfig → List (Str × Str) → api.Metadata → api.Metadata
  unfolding entry_of_header
  forward_headers config [] m = m
  forward_headers config ((key, value) ∷ rest) m =
      forward_headers config rest (put_optional (entry_of_header config key value) m)

  abbrev pub merge_extension : Option api.Metadata → api.Metadata → api.Metadata
  merge_extension none m = m
  merge_extension (some ext) m = merge_entries api (api.metadata_entries ext) m

  unfoldable pub forward_metadata :
      Request headers.Headers api.Metadata → api.Metadata → api.Metadata
  unfolding forward_headers merge_entries
  forward_metadata req m =
      merge_extension req.extensions.metadata
        (forward_headers (config_of req.extensions.metadata_config) (headers.entries req.headers) m)

-- `n * 3600` on `u64`, and the nanoseconds of a duration.
abbrev pub scale : Str → ℕ → Option ℕ
scale unit n =
    if str_eq unit (lit "H")
    then some ((n * 3600) % u64_mod * 1000000000)
    else if str_eq unit (lit "M")
    then some ((n * 60) % u64_mod * 1000000000)
    else if str_eq unit (lit "S")
    then some (n * 1000000000)
    else if str_eq unit (lit "m")
    then some (n * 1000000)
    else if str_eq unit (lit "u")
    then some (n * 1000)
    else if str_eq unit (lit "n")
    then some n
    else none

-- A duration in nanoseconds. The products wrap as in a release build.
unfoldable pub grpc_timeout : Str → Option ℕ
grpc_timeout val =
    if is_empty val
    then none
    else parse_uint u64_mod (take (length val - 1) val) >>= scale (drop (length val - 1) val)
