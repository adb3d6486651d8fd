-- ===== src/Adapters/Secrets.antt =====
-- A text typed into a sensitive target does not reach the proposal.
use simulation_ai.Prelude.{String, true, false, ◌≡◌, refl, List, [], ◌∷◌, ◌==◌}
use simulation_ai.Prelude.Int.{pos}
use simulation_ai.Json.{Value, null, bool, int, str, obj, Fields, truthy}
use simulation_ai.Json.Dict.{lookup, get_or, put, lookup-put, get_or-put}
use simulation_ai.Result.{ok, ◌>>=◌}
use simulation_ai.Runtime.{Runtime, str_of}
use simulation_ai.Model.State.{SurfaceState}
use simulation_ai.Model.Records.{ObservationReport}
use simulation_ai.Adapters.{part_of}
use simulation_ai.Adapters.Propose.{propose, operations_of, type_text, typed_value, intent_summary}

module _ (rt : Runtime) (action target : Fields) (text : Value) where
  -- A key other than the text's.
  get_or-put_text :
      (k : String) (v : Value)
      → ("text" == k) ≡ false
      → get_or k v (put "text" text action) ≡ get_or k v action
  get_or-put_text k v other = rw (get_or-put "text" k text v action, other) refl

  module _ (sensitive : truthy (get_or "sensitive" (bool false) target) ≡ true) where
    typed_value-secret :
        typed_value rt (put "text" text action) target ≡ typed_value rt action target
    unfolding typed_value
    typed_value-secret =
        rw (sensitive, get_or-put_text "typed_character_count" (int (pos 0)) refl) refl

    operations_of-secret :
        (target_id : String) (state : SurfaceState) (ids : List String)
        → operations_of rt "type" (put "text" text action) target target_id state ids
          ≡ operations_of rt "type" action target target_id state ids
    unfolding operations_of type_text
    operations_of-secret target_id state ids = rw typed_value-secret refl

    intent_summary-secret :
        (target_id : String)
        → intent_summary rt "type" target_id (put "text" text action)
          ≡ intent_summary rt "type" target_id action
    unfolding intent_summary
    intent_summary-secret target_id = refl

module _ (packet action : Fields) where
  part_of-action : part_of "action" (put "action" (obj action) packet) ≡ ok action
  unfolding part_of
  part_of-action = rw (get_or-put "action" "action" (obj action) null packet, part_of) refl

  part_of-target : part_of "target" (put "action" (obj action) packet) ≡ part_of "target" packet
  unfolding part_of
  part_of-target = rw (get_or-put "action" "target" (obj action) null packet, part_of) refl

  lookup-event : lookup "event_id" (put "action" (obj action) packet) ≡ lookup "event_id" packet
  lookup-event = lookup-put "action" "event_id" (obj action) packet

-- Typing into a target that is marked sensitive: the proposal is the same whatever the text of the
-- action is, and whether it is there at all.
pub propose-secret :
    (rt : Runtime) (packet action target : Fields) (text : Value) (observation : ObservationReport)
    (state : SurfaceState)
    → part_of "target" packet ≡ ok target
    → truthy (get_or "sensitive" (bool false) target) ≡ true
    → str_of rt (get_or "kind" (str "unknown") action) ≡ "type"
    → propose rt (put "action" (obj (put "text" text action)) packet) observation state
      ≡ propose rt (put "action" (obj action) packet) observation state
unfolding propose
propose-secret rt packet action target text observation state is_target sensitive types =
    let typed = put "text" text action in
    rw
      (
        part_of-action packet typed,
        part_of-action packet action,
        part_of-target packet typed,
        part_of-target packet action,
        is_target,
        lookup-event packet typed,
        lookup-event packet action,
        get_or-put_text rt action target text "kind" (str "unknown") refl,
        types,
        operations_of-secret rt action target text sensitive
            (str_of rt (get_or "node_id" (str "surface.unknown") target)) state
            (observation.observation_id ∷ []),
        ◌>>=◌,
      )
      refl
