-- ===== src/Engine/Boot/Genesis.antt =====
-- The state and the frame that `boot` makes.
use simulation_ai.Prelude.{String, true, false, [], ◌∷◌}
use simulation_ai.Prelude.Int.{pos}
use simulation_ai.Json.{Value, bool, int, float, str, arr, obj, items, empty_list, empty_dict}
use simulation_ai.Json.Dict.{size}
use simulation_ai.Engine.Boot.Objects.{default_objects, default_links}
use simulation_ai.Runtime.{Runtime}
use simulation_ai.Model.{dict}
use simulation_ai.Model.State.{SurfaceState, seal}
use simulation_ai.Model.Records.{FrameManifest, seal_frame}

-- What the prompt registry says of its pack.
pub record Pack : Type 0 where
  pub pack_id : String
  pub pack_version : String
  pub pack_sha256 : String

unfoldable pub genesis_ui : Value
unfolding default_links
genesis_ui = obj (
    dict (
      ("simulation_running", bool true)
      ∷ ("last_command", str "")
      ∷ ("inputs", empty_dict)
      ∷ ("topology_links", default_links)
      ∷ (
        "privacy",
        obj (
            dict (
              ("cloud_allowed", bool false)
              ∷ ("frame_retention", str "bounded")
              ∷ ("redact_sensitive_inputs", bool true)
              ∷ [])),
      )
      ∷ ("render_policy", str "native-first")
      ∷ ("reduced_motion", bool false)
      ∷ []))

unfoldable pub genesis_layers : Value
unfolding default_objects
genesis_layers = obj (
    dict (
      ("sensorium", empty_dict)
      ∷ ("signals", empty_dict)
      ∷ ("objects", obj (dict (("count", int (pos (size default_objects))) ∷ [])))
      ∷ ("states", empty_dict)
      ∷ ("events", obj (dict (("last_action", empty_dict) ∷ [])))
      ∷ ("goals", empty_dict)
      ∷ ("plans", empty_dict)
      ∷ (
        "causal_model",
        obj (
            dict (
              (
                "invariants",
                arr (
                    items (
                      str "models cannot directly commit state"
                      ∷ str "generated pixels are non-authoritative"
                      ∷ str "branch refs point to immutable states"
                      ∷ [])),
              )
              ∷ [])),
      )
      ∷ (
        "meta_model",
        obj (dict (("failures", int (pos 0)) ∷ ("contradictions", int (pos 0)) ∷ [])),
      )
      ∷ (
        "identity",
        obj (
            dict (
              ("target_name", str "Simulation AI World Surface")
              ∷ ("rights_boundary", str "operator-supplied and generated assets only")
              ∷ [])),
      )
      ∷ []))

unfoldable pub genesis_provenance : Pack → Value
genesis_provenance pack = obj (
    dict (
      ("authority", str "deterministic-core")
      ∷ ("generated_content_disclosure", bool true)
      ∷ ("pixel_state_authoritative", bool false)
      ∷ (
        "proposal_models",
        arr (items (str "deterministic-observer-v1" ∷ str "rule-patch-proposer-v2" ∷ [])),
      )
      ∷ (
        "prompt_pack",
        obj (
            dict (
              ("pack_id", str pack.pack_id)
              ∷ ("pack_version", str pack.pack_version)
              ∷ ("pack_sha256", str pack.pack_sha256)
              ∷ [])),
      )
      ∷ ("rights_policy", str "clean-room-world-surface")
      ∷ []))

unfoldable pub genesis : Runtime → Pack → SurfaceState
unfolding default_objects genesis_ui genesis_layers genesis_provenance seal
genesis rt pack = seal rt (record {
  schema_version = "nmsr.surface-state/2";
  map_id = "simulation-ai";
  target = "semantic-topology";
  profile = "world-surface-studio";
  mode = "hybrid";
  seed = pos 42;
  logical_time = 0;
  branch = "main";
  parent_state_hash = "";
  state_hash = "";
  entropy_bits = pos 720000;
  coherence = pos 940000;
  selected_object_id = str "node.surface";
  active_focus_id = str "surface.viewport";
  objects = default_objects;
  ui = genesis_ui;
  goals = empty_list;
  plans = empty_list;
  hypotheses = arr (
      items (
        obj (
          dict (
            ("hypothesis_id", str "h_native-first")
            ∷ ("label", str "Native UI is sufficient for the next transition")
            ∷ ("probability", float (pos 780000))
            ∷ ("epistemic_class", str "inferred")
            ∷ []))
        ∷ obj (
            dict (
              ("hypothesis_id", str "h_image-keyframe")
              ∷ ("label", str "A generated keyframe may be required")
              ∷ ("probability", float (pos 220000))
              ∷ ("epistemic_class", str "inferred")
              ∷ []))
        ∷ []));
  claims = arr (
      items (
        obj (
          dict (
            ("claim_id", str "claim_pixels_projection")
            ∷ ("statement", str "Pixels are a projection of committed semantic state.")
            ∷ ("epistemic_class", str "observed")
            ∷ ("confidence", float (pos 1000000))
            ∷ []))
        ∷ []));
  layer_state = genesis_layers;
  render = obj (
      dict (
        ("status", str "verified")
        ∷ ("requested_mode", str "native_ui")
        ∷ ("committed_frame_id", str "frame_genesis")
        ∷ ("pending_job_id", str "")
        ∷ []));
  provenance = genesis_provenance pack;
})

unfoldable pub genesis_frame : Runtime → String → SurfaceState → FrameManifest
unfolding seal_frame
genesis_frame rt created_at state = seal_frame rt (record {
  frame_id = "frame_genesis";
  state_hash = state.state_hash;
  parent_frame_id = "";
  branch = "main";
  render_mode = "native_ui";
  status = "verified";
  render_job_id = "boot";
  verification = dict (("decision", str "pass") ∷ ("source", str "deterministic-boot") ∷ []);
  created_by = "surface-core" ∷ [];
  frame_hash = "";
  created_at = created_at;
})
