-- ===== src/Engine/Boot/Objects.antt =====
-- `DEFAULT_OBJECTS` and `DEFAULT_LINKS`.
use simulation_ai.Prelude.{true, false, [], ◌∷◌}
use simulation_ai.Prelude.Int.{pos}
use simulation_ai.Json.{Value, bool, int, float, str, arr, obj, Fields, items}
use simulation_ai.Model.{dict}

unfoldable pub default_objects : Fields
default_objects = dict (
    (
      "node.observer",
      obj (
          dict (
            ("type", str "model")
            ∷ ("label", str "Local Observer")
            ∷ ("status", str "ready")
            ∷ ("epistemic_class", str "observed")
            ∷ ("layout", arr (items (float (pos 200000) ∷ float (pos 350000) ∷ [])))
            ∷ (
              "properties",
              obj (dict (("adapter", str "gemma-ready") ∷ ("authority", str "proposal-only") ∷ [])),
            )
            ∷ [])),
    )
    ∷ (
      "node.planner",
      obj (
          dict (
            ("type", str "planner")
            ∷ ("label", str "Patch Planner")
            ∷ ("status", str "ready")
            ∷ ("epistemic_class", str "inferred")
            ∷ ("layout", arr (items (float (pos 420000) ∷ float (pos 200000) ∷ [])))
            ∷ (
              "properties",
              obj (
                  dict
                    (("adapter", str "gpt-5.6-ready") ∷ ("authority", str "proposal-only") ∷ [])),
            )
            ∷ [])),
    )
    ∷ (
      "node.surface",
      obj (
          dict (
            ("type", str "world")
            ∷ ("label", str "World Surface")
            ∷ ("status", str "active")
            ∷ ("epistemic_class", str "observed")
            ∷ ("layout", arr (items (float (pos 480000) ∷ float (pos 460000) ∷ [])))
            ∷ (
              "properties",
              obj (
                  dict (
                    ("projection", str "semantic-topology")
                    ∷ ("authority", str "deterministic-core")
                    ∷ [])),
            )
            ∷ [])),
    )
    ∷ (
      "node.memory",
      obj (
          dict (
            ("type", str "store")
            ∷ ("label", str "Memoric Store")
            ∷ ("status", str "indexed")
            ∷ ("epistemic_class", str "observed")
            ∷ ("layout", arr (items (float (pos 760000) ∷ float (pos 340000) ∷ [])))
            ∷ (
              "properties",
              obj (
                  dict (("branch_aware", bool true) ∷ ("contradiction_retention", bool true) ∷ [])),
            )
            ∷ [])),
    )
    ∷ (
      "node.renderer",
      obj (
          dict (
            ("type", str "render")
            ∷ ("label", str "Render Queue")
            ∷ ("status", str "verified")
            ∷ ("epistemic_class", str "observed")
            ∷ ("layout", arr (items (float (pos 660000) ∷ float (pos 700000) ∷ [])))
            ∷ (
              "properties",
              obj (
                  dict (
                    ("image_state_authoritative", bool false) ∷ ("max_retries", int (pos 2)) ∷ [])),
            )
            ∷ [])),
    )
    ∷ (
      "node.verifier",
      obj (
          dict (
            ("type", str "verifier")
            ∷ ("label", str "Frame Verifier")
            ∷ ("status", str "watching")
            ∷ ("epistemic_class", str "observed")
            ∷ ("layout", arr (items (float (pos 340000) ∷ float (pos 740000) ∷ [])))
            ∷ (
              "properties",
              obj (dict (("protected_regions", bool true) ∷ ("anchor_checks", bool true) ∷ [])),
            )
            ∷ [])),
    )
    ∷ [])

unfoldable pub default_links : Value
default_links = arr (
    items (
      arr (items (str "node.observer" ∷ str "node.surface" ∷ str "observe" ∷ []))
      ∷ arr (items (str "node.surface" ∷ str "node.planner" ∷ str "state" ∷ []))
      ∷ arr (items (str "node.planner" ∷ str "node.surface" ∷ str "propose" ∷ []))
      ∷ arr (items (str "node.surface" ∷ str "node.memory" ∷ str "remember" ∷ []))
      ∷ arr (items (str "node.surface" ∷ str "node.renderer" ∷ str "render" ∷ []))
      ∷ arr (items (str "node.renderer" ∷ str "node.verifier" ∷ str "verify" ∷ []))
      ∷ arr (items (str "node.verifier" ∷ str "node.surface" ∷ str "present" ∷ []))
      ∷ arr (items (str "node.memory" ∷ str "node.planner" ∷ str "retrieve" ∷ []))
      ∷ []))
