-- ===== src/Layers/Metadata.antt =====
-- gateway-runtime/src/layers/metadata.rs: the layer that runs the annotators of a request. An
-- annotator may read the world: the default one reads the clock.
pub mod Merging
use grpc_gateway_rust.Prelude.{Option, none, some, List, [], ◌∷◌, if◌then◌else◌}
use grpc_gateway_rust.Http.{MetadataApi, MetadataEntry}
use grpc_gateway_rust.Http.Message.{Request, Extensions, MetadataForwardingConfig, Outcome, Service}

module _ (api : MetadataApi) where
  abbrev pub MetadataAnnotator : Type 0 → Type 0 → Type 0
  MetadataAnnotator H W = Request H api.Metadata → W → api.Metadata × W

  pub record MetadataLayer (H W : Type 0) : Type 0 where
    pub inner : Service H api.Metadata W
    pub annotators : List (MetadataAnnotator H W)
    pub config : MetadataForwardingConfig

  -- The loop of `insert` and `insert_bin`.
  unfoldable pub merge_entries : List MetadataEntry → api.Metadata → api.Metadata
  merge_entries [] existing = existing
  merge_entries (e ∷ es) existing = merge_entries es (api.put_entry e existing)

  -- Metadata that is not empty is merged into that of the request, if it has some.
  unfoldable pub annotate_with : api.Metadata → Option api.Metadata → Option api.Metadata
  unfolding merge_entries
  annotate_with new old = if api.is_empty_metadata new then old else elim old [
    | none ↦ some new
    | some existing ↦ some (merge_entries (api.metadata_entries new) existing)
  ]

  abbrev pub set_metadata :
      {H : Type 0} → Option api.Metadata → Request H api.Metadata → Request H api.Metadata
  set_metadata m req = record req { extensions = record req.extensions { metadata = m } }

  unfoldable pub annotate :
      {H W : Type 0}
      → List (MetadataAnnotator H W)
      → Request H api.Metadata
      → W
      → Request H api.Metadata × W
  unfolding annotate_with
  annotate [] req w = (req, w)
  annotate (annotator ∷ rest) req w =
      let new = annotator req w in
      annotate rest (set_metadata (annotate_with new.0 req.extensions.metadata) req) new.1

  abbrev pub set_config :
      {H : Type 0} → MetadataForwardingConfig → Request H api.Metadata → Request H api.Metadata
  set_config config req = record req {
    extensions = record req.extensions { metadata_config = some config };
  }

  unfoldable pub metadata_call : {H W : Type 0} → MetadataLayer H W → Service H api.Metadata W
  unfolding annotate
  metadata_call layer req w =
      let annotated = annotate layer.annotators req w in
      layer.inner (set_config layer.config annotated.0) annotated.1
