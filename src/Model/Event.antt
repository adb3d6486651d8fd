-- ===== src/Model/Event.antt =====
-- `EventEnvelope` of model.py.
use simulation_ai.Prelude.{ℕ, String, List, [], ◌∷◌}
use simulation_ai.Prelude.Int.{pos}
use simulation_ai.Json.{int, str, arr, obj, Fields, texts}
use simulation_ai.Runtime.{Runtime, digest}
use simulation_ai.Model.{dict}

pub record EventEnvelope : Type 0 where
  pub index : ℕ
  pub event_id : String
  pub action : String
  pub arguments : Fields
  pub target_id : String
  pub logical_time : ℕ
  pub parent_state_hash : String
  pub resulting_state_hash : String
  pub branch : String
  pub evidence_ids : List String
  pub proposal_id : String
  pub epistemic_class : String
  pub status : String
  pub actor : String
  pub created_at : String
  pub event_hash : String

-- `asdict`
unfoldable pub event_dict : EventEnvelope → Fields
event_dict e = dict (
    ("index", int (pos e.index))
    ∷ ("event_id", str e.event_id)
    ∷ ("action", str e.action)
    ∷ ("arguments", obj e.arguments)
    ∷ ("target_id", str e.target_id)
    ∷ ("logical_time", int (pos e.logical_time))
    ∷ ("parent_state_hash", str e.parent_state_hash)
    ∷ ("resulting_state_hash", str e.resulting_state_hash)
    ∷ ("branch", str e.branch)
    ∷ ("evidence_ids", arr (texts e.evidence_ids))
    ∷ ("proposal_id", str e.proposal_id)
    ∷ ("epistemic_class", str e.epistemic_class)
    ∷ ("status", str e.status)
    ∷ ("actor", str e.actor)
    ∷ ("created_at", str e.created_at)
    ∷ ("event_hash", str e.event_hash)
    ∷ [])

-- the digest of the event with an empty hash, which `seal` and the replay check compute
unfoldable pub hash_of : Runtime → EventEnvelope → String
unfolding event_dict digest
hash_of rt e = digest rt (obj (event_dict (record e { event_hash = "" })))

unfoldable pub seal : Runtime → EventEnvelope → EventEnvelope
unfolding hash_of
seal rt e = record e { event_hash = hash_of rt e }
