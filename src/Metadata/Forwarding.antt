-- ===== src/Metadata/Forwarding.antt =====
-- Which headers are forwarded.
use grpc_gateway_rust.Prelude.{
  ◌≡◌, refl, ap, ◌∙◌, false, Bool-cases, Option-cases, inl, inr, Option, none, some, List, [], ◌∷◌,
  Str, Bool, if◌then◌else◌, last, or_else, not, ◌&&◌,
}
use grpc_gateway_rust.Http.{HeaderApi, MetadataApi, MetadataEntry, entry_values}
use grpc_gateway_rust.Http.Message.{MetadataForwardingConfig, Request}
use grpc_gateway_rust.Layers.Metadata.{merge_entries}
use grpc_gateway_rust.Layers.Metadata.Merging.{merge_entries_lem}
use grpc_gateway_rust.Metadata.{
  is_restricted, is_allowed, entry_of_header, forward_headers, config_of, merge_extension,
  forward_metadata,
}

-- The headers that may be forwarded: allowed by the configuration and not of the transport.
abbrev pub is_permitted : MetadataForwardingConfig → Str → Bool
is_permitted config key = is_allowed config key && not (is_restricted key)

abbrev pub permitted : MetadataForwardingConfig → List (Str × Str) → List (Str × Str)
permitted config [] = []
permitted config ((key, value) ∷ rest) =
    let kept = permitted config rest in
    if is_permitted config key then (key, value) ∷ kept else kept

module _ (headers : HeaderApi) (api : MetadataApi) where
  abbrev pub cons_optional : Option MetadataEntry → List MetadataEntry → List MetadataEntry
  cons_optional none es = es
  cons_optional (some e) es = e ∷ es

  -- The entries that the headers become, in order.
  abbrev pub forwarded : MetadataForwardingConfig → List (Str × Str) → List MetadataEntry
  forwarded config [] = []
  forwarded config ((key, value) ∷ rest) =
      cons_optional (entry_of_header headers api config key value) (forwarded config rest)

  forward_headers-merge :
      (config : MetadataForwardingConfig) (hs : List (Str × Str)) (m : api.Metadata)
      → forward_headers headers api config hs m ≡ merge_entries api (forwarded config hs) m
  unfolding forward_headers merge_entries
  forward_headers-merge config [] m = refl
  forward_headers-merge config ((key, value) ∷ rest) m =
      forward_headers-merge config rest _
      ∙ elim (Option-cases (entry_of_header headers api config key value)) [
        | inl skipped ↦ rw skipped
        | inr (e, kept) ↦ rw kept
      ]

  abbrev pub extension_entries : Option api.Metadata → List MetadataEntry
  extension_entries none = []
  extension_entries (some ext) = api.metadata_entries ext

  merge_extension_lem :
      (ext : Option api.Metadata) (m : api.Metadata) (k : Str)
      → api.get_entry k (merge_extension headers api ext m)
        ≡ or_else (last (entry_values k (extension_entries ext))) (api.get_entry k m)
  merge_extension_lem none m k = refl
  merge_extension_lem (some ext) m k = merge_entries_lem api k (api.metadata_entries ext) m

  -- A key of the forwarded metadata has the last value that the extensions of the request give it; if
  -- they give none, the last value of the headers that are forwarded under it; if there are none, the
  -- value that it had.
  pub forward_metadata_lem :
      (req : Request headers.Headers api.Metadata) (m : api.Metadata) (k : Str)
      → api.get_entry k (forward_metadata headers api req m)
        ≡ or_else (last (entry_values k (extension_entries req.extensions.metadata))) (
            or_else
              (last (
                entry_values k (
                  forwarded
                    (config_of req.extensions.metadata_config)
                    (headers.entries req.headers))))
              (api.get_entry k m))
  unfolding forward_metadata
  forward_metadata_lem req m k =
      let config = config_of req.extensions.metadata_config in
      let hs = headers.entries req.headers in
      merge_extension_lem req.extensions.metadata _ k
      ∙ ap (or_else (last (entry_values k (extension_entries req.extensions.metadata)))) (
          ap (api.get_entry k) (forward_headers-merge config hs m)
          ∙ merge_entries_lem api k (forwarded config hs) m)

  entry_of_header-none :
      (config : MetadataForwardingConfig) (key value : Str)
      → is_permitted config key ≡ false
      → entry_of_header headers api config key value ≡ none
  unfolding entry_of_header
  entry_of_header-none config key value h = elim (Bool-cases (is_restricted key)) [
    | inl restricted ↦ rw restricted
    | inr free ↦ elim (Bool-cases (is_allowed config key)) [
      | inl allowed ↦ absurd (cc (rw (allowed, free) at h))
      | inr denied ↦ rw (free, denied)
    ]
  ]

  -- Headers of the transport, and headers that the configuration does not allow, have no effect on
  -- the metadata: it is that of the permitted headers alone.
  pub forward_headers-permitted :
      (config : MetadataForwardingConfig) (hs : List (Str × Str)) (m : api.Metadata)
      → forward_headers headers api config hs m
        ≡ forward_headers headers api config (permitted config hs) m
  unfolding forward_headers
  forward_headers-permitted config [] m = refl
  forward_headers-permitted config ((key, value) ∷ rest) m =
      elim (Bool-cases (is_permitted config key)) [
        | inl kept ↦ rw kept (forward_headers-permitted config rest _)
        | inr skipped ↦
            rw (skipped, entry_of_header-none config key value skipped)
              (forward_headers-permitted config rest m)
      ]
