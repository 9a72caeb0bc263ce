-- ===== src/Layers/Metadata/Merging.antt =====
-- Which metadata a request has after an annotator.
use grpc_gateway_rust.Prelude.{
  ◌≡◌, refl, ◌∙◌, sym, Bool-cases, inl, inr, Option, none, some, List, [], ◌∷◌, Str, str_eq, last,
  or_else,
}
use grpc_gateway_rust.Http.{MetadataApi, MetadataEntry, entry_values}
use grpc_gateway_rust.Layers.Metadata.{merge_entries, annotate_with}

or_else-last :
    (v : Str) (vs : List Str) (x : Option Str)
    → or_else (last vs) (some v) ≡ or_else (last (v ∷ vs)) x
or_else-last v [] x = refl
or_else-last v (u ∷ vs) x = sym (or_else-last u vs (some v)) ∙ or_else-last u vs x

module _ (api : MetadataApi) where
  -- After a loop of insertions, a key has the last of the inserted values, or, if there are none, the
  -- value that it had.
  pub merge_entries_lem :
      (k : Str) (es : List MetadataEntry) (m : api.Metadata)
      → api.get_entry k (merge_entries api es m)
        ≡ or_else (last (entry_values k es)) (api.get_entry k m)
  unfolding merge_entries
  merge_entries_lem k [] m = refl
  merge_entries_lem k (e ∷ es) m =
      merge_entries_lem k es (api.put_entry e m)
      ∙ rw (api.get_entry-put_entry k e m) (elim (Bool-cases (str_eq e.key k)) [
        | inl same ↦ rw same (or_else-last e.value (entry_values k es) (api.get_entry k m))
        | inr other ↦ rw other
      ])

  abbrev pub get_optional : Str → Option api.Metadata → Option Str
  get_optional k none = none
  get_optional k (some m) = api.get_entry k m

  -- Where a request has metadata, a key has, after an annotator, the last value that the annotator
  -- gave it, or, if it gave none, the value that it had.
  pub annotate_with-merge :
      (k : Str) (new old : api.Metadata)
      → get_optional k (annotate_with api new (some old))
        ≡ or_else (last (entry_values k (api.metadata_entries new))) (api.get_entry k old)
  unfolding annotate_with
  annotate_with-merge k new old = elim (Bool-cases (api.is_empty_metadata new)) [
    | inl empty ↦ rw (empty, api.is_empty_metadata-entries new empty)
    | inr filled ↦ rw filled (merge_entries_lem k (api.metadata_entries new) old)
  ]
