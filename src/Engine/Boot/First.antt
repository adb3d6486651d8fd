-- ===== src/Engine/Boot/First.antt =====
-- The store that `boot` leaves.
use mathlib.Core.Path.{subst}
use simulation_ai.Prelude.{none, List}
use simulation_ai.Model.Event.{EventEnvelope}
use simulation_ai.Store.Log.{list_events}
use simulation_ai.Prelude.{String, ◌≡◌, refl, [], eq_refl}
use simulation_ai.Prelude.Lists.{length}
use simulation_ai.Prelude.Texts.{strip, is_space}
use simulation_ai.Result.{ok, >>=-eq-ok, ok-injective}
use simulation_ai.Runtime.{Runtime}
use simulation_ai.Model.Records.{FrameManifest, frame_dict}
use simulation_ai.Model.State.{SurfaceState, seal, payload}
use simulation_ai.Store.{Store, write_once, find, exists, overwrite, remove}
use simulation_ai.Store.States.{save_state, set_ref, read_ref, state_exists}
use simulation_ai.Store.Files.{save_frame, sealed_frame}
use simulation_ai.Exec.{writes, ◌>>=◌}
use simulation_ai.Exec.Stays.{Stays, Stays-always, Stays-pure, Stays-bind, Stays-writes}
use simulation_ai.Engine.Clock.{now}
use simulation_ai.Engine.Boot.{Pack, empty_store, genesis, genesis_frame, boot, write_first}
use simulation_ai.Engine.Replay.{verify_replay}
use simulation_ai.Engine.Histories.{Reaches, verify_replay-Reaches}
use simulation_ai.Engine.Consistent.{IsSealed, IsConsistent, IsHex}
use simulation_ai.Engine.Consistent.States.{save_state-Saved, sealed-hash}
use simulation_ai.Engine.Consistent.Refs.{set_ref-Triple}

empty_store-IsConsistent : (rt : Runtime) → IsConsistent rt empty_store
empty_store-IsConsistent rt = record { files = tt; heads = tt; log = tt }

genesis-IsSealed : (rt : Runtime) (pack : Pack) → IsSealed rt (genesis rt pack)
unfolding genesis seal payload
genesis-IsSealed rt pack = refl

module _ (rt : Runtime) (hex : IsHex rt) where
  save_state-Stays :
      (s : SurfaceState) → IsSealed rt s → Stays (IsConsistent rt) (writes (save_state rt s))
  save_state-Stays s is =
      Stays-writes (IsConsistent rt) (save_state rt s)
        λ w v c e. (save_state-Saved rt s w is c v e).consistent

  save_frame-Stays :
      (frame : FrameManifest) → Stays (IsConsistent rt) (writes (save_frame rt frame))
  unfolding save_frame
  save_frame-Stays frame = Stays-writes (IsConsistent rt) (save_frame rt frame) λ w v c e.
      let (frames, _, is) =
        >>=-eq-ok (write_once frame_dict frame.frame_id (sealed_frame rt frame) w.frames) _ e in
      subst (IsConsistent rt) (ok-injective _ _ is) c

  now-Stays : Stays (IsConsistent rt) (now rt)
  unfolding now
  now-Stays = record { at = λ w c. c }

  write_first-Stays :
      (s : SurfaceState) → IsSealed rt s → Stays (IsConsistent rt) (write_first rt s)
  unfolding write_first
  write_first-Stays s is =
      let I = IsConsistent rt in
      Stays-bind I (save_state-Stays s is) λ _.
        Stays-bind I (set_ref-Triple rt hex "HEAD" s.state_hash) λ _.
          Stays-bind I (set_ref-Triple rt hex "branch-main" s.state_hash) λ _.
            Stays-bind I now-Stays λ created_at.
              Stays-bind I (save_frame-Stays (genesis_frame rt created_at s)) λ _. Stays-pure I s

  pub boot-IsConsistent : (pack : Pack) → IsConsistent rt (boot rt pack empty_store).1
  unfolding boot
  boot-IsConsistent pack =
      Stays-always (IsConsistent rt) (write_first rt (genesis rt pack))
        (write_first-Stays (genesis rt pack) (genesis-IsSealed rt pack)) empty_store
        (empty_store-IsConsistent rt)

  -- Whatever is called after `boot` on a new store, and wherever it raises: `verify_replay` finds no
  -- problem, if HEAD and the log can be read. The IDs that `create_branch` and `verify_render` compute are new
  -- each time, and the digests have no white space at their ends.
  pub verify_replay-boot :
      (pack : Pack) {v : Store} (head : String) (events : List EventEnvelope)
      → Reaches rt (boot rt pack empty_store).1 v
      → read_ref "HEAD" v ≡ ok head
      → list_events none none v ≡ ok events
      → verify_replay rt v
        ≡ ok (record {
          event_count = length v.events;
          state_count = length v.states;
          head = head;
          problems = [];
        })
  verify_replay-boot pack head events r h l =
      verify_replay-Reaches rt hex head events (boot-IsConsistent pack) r h l

write_first-empty_store :
    (rt : Runtime) (s : SurfaceState)
    → IsSealed rt s
    → ((write_first rt s empty_store).0 ≡ ok s)
      × (read_ref "HEAD" (write_first rt s empty_store).1 ≡ ok (strip is_space s.state_hash))
unfolding write_first save_state write_once find set_ref state_exists exists writes now save_frame
    overwrite remove read_ref ◌>>=◌
write_first-empty_store rt s is =
    rw (sealed-hash rt s is, eq_refl s.state_hash, eq_refl s.state_hash) (refl, refl)

-- On a new store `boot` raises nothing: it returns the first state, and HEAD holds its hash.
pub boot-empty_store :
    (rt : Runtime) (pack : Pack)
    → ((boot rt pack empty_store).0 ≡ ok (genesis rt pack))
      × (read_ref "HEAD" (boot rt pack empty_store).1
          ≡ ok (strip is_space (genesis rt pack).state_hash))
unfolding boot
boot-empty_store rt pack = write_first-empty_store rt (genesis rt pack) (genesis-IsSealed rt pack)
