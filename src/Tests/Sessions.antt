-- ===== src/Tests/Sessions.antt =====
-- Runs of whole calls, and of the theorems on consistent stores.
use simulation_ai.Store.States.{save_state}
use simulation_ai.Store.{write_once}
use simulation_ai.Store.Files.{save_frame}
use simulation_ai.Engine.{now}
use simulation_ai.Prelude.{none}
use simulation_ai.Json.{texts}
use simulation_ai.Model.Event.{event_dict}
use simulation_ai.Store.Lines.{reads_back, is_one_line, fields_on_one_line}
use simulation_ai.Store.Log.{list_events}
use simulation_ai.Prelude.{suc, String, false, none, some, [], ◌∷◌, ◌++◌, ◌≡◌, refl}
use simulation_ai.Prelude.Lists.{length}
use simulation_ai.Json.{Fields, str, obj}
use simulation_ai.Json.Sort.{sort_fields, insert_field, sort_keys, str_lt}
use simulation_ai.Json.Dict.{lookup}
use simulation_ai.Runtime.{digest}
use simulation_ai.Model.Event.{event_dict}
use simulation_ai.Prelude.Texts.{strip, is_space, lstrip, rstrip, take_str, str_len}
use simulation_ai.Result.{ok}
use simulation_ai.Model.{dict, one_of}
use simulation_ai.Model.State
use simulation_ai.Model.State.{as_dict}
use simulation_ai.Model.Event.{hash_of}
use simulation_ai.Store.{Store, exists, find, overwrite, remove, write_once, Dir}
use simulation_ai.Store.States.{
  read_ref, load_state, set_ref, list_refs, read_state, state_exists, itself,
}
use simulation_ai.Store.Log.{has_event}
use simulation_ai.Exec.{◌>>=◌, writes}
use simulation_ai.Engine.Branches.{switch_branch}
use simulation_ai.Engine.Packet.{clean_branch_name}
use simulation_ai.Engine.Commit.{commit_proposal}
use simulation_ai.Engine.Replay.{verify_replay}
use simulation_ai.Engine.Consistent.{IsConsistent}
use simulation_ai.Engine.Extends.{Extends}
use simulation_ai.Engine.Extends.Calls.{Reaches-Extends}
use simulation_ai.Engine.Interact.{interact}
use simulation_ai.Engine.Boot.{Pack, boot, write_first, genesis, empty_store}
use simulation_ai.Engine.Boot.First.{boot-empty_store, verify_replay-boot}
use simulation_ai.Engine.Histories.{
  interact-IsConsistent, commits, switches, start, step, verify_replay-Reaches,
}
use simulation_ai.Engine.Replay.{log_problems}
use simulation_ai.Engine.Branches.{create_branch, fork_state, fork_event}
use simulation_ai.Engine.Verify.{verify_render, verify_event}
use simulation_ai.Engine.Consistent.{IsLog}
use simulation_ai.Engine.Consistent.States.{Loaded, load_state-Loaded}
use simulation_ai.Engine.Consistent.Commit.{commit_proposal-IsConsistent}
use simulation_ai.Engine.Consistent.Branches.{create_branch-IsConsistent}
use simulation_ai.Engine.Consistent.Verify.{verify_render-IsConsistent}
use simulation_ai.Engine.Consistent.Replay.{log_problems_complete}
use simulation_ai.Model.State.{SurfaceState}
use simulation_ai.Model.State.RoundTrip.{reload, from_dict-sort_fields, seal-from_dict}
use simulation_ai.Model.Event
use simulation_ai.Prelude.{◌↔◌}
use simulation_ai.Tests.Fixtures.{
  hash₁, queued_job, passed, text_of, text_at, test_runtime, test_runtime-IsHex, hash₀, state₀,
  store₀, proposal₁,
}

store₀-IsConsistent : IsConsistent test_runtime store₀
unfolding strip is_space lstrip rstrip text_of text_at lookup insert_field sort_keys str_lt digest
    State.seal State.payload event_dict as_dict sort_fields exists hash_of one_of
store₀-IsConsistent = record {
  files = (record { state = state₀; written = refl; named = refl; sealed = refl }, tt);
  heads = (refl, (refl, tt));
  log = (refl, refl, refl, refl, refl, tt);
}

abbrev switched : Store
switched = (switch_branch test_runtime "main" store₀).1

switched-head : read_ref "HEAD" switched ≡ ok hash₀
unfolding switch_branch read_ref set_ref load_state clean_branch_name list_refs ◌>>=◌ writes find
    exists overwrite remove
switched-head = refl

switched-log : list_events none none switched ≡ ok switched.events
unfolding list_events reads_back is_one_line fields_on_one_line event_dict texts switch_branch
    read_ref set_ref load_state clean_branch_name list_refs ◌>>=◌ writes find exists overwrite
    remove
switched-log = refl

verify_replay-Reaches_example :
    verify_replay test_runtime switched
    ≡ ok (record {
      event_count = length switched.events;
      state_count = length switched.states;
      head = hash₀;
      problems = [];
    })
verify_replay-Reaches_example =
    verify_replay-Reaches test_runtime test_runtime-IsHex hash₀ switched.events store₀-IsConsistent
      (step (switches "main") start) switched-head switched-log

commit_proposal-IsConsistent_example :
    IsConsistent test_runtime (commit_proposal test_runtime proposal₁ none none store₀).1
commit_proposal-IsConsistent_example =
    commit_proposal-IsConsistent test_runtime test_runtime-IsHex proposal₁ none none store₀
      store₀-IsConsistent

new_branch-fresh :
    (clean : String) (cur branch : SurfaceState)
    → clean_branch_name test_runtime "side" ≡ ok clean
    → load_state "HEAD" store₀ ≡ ok cur
    → fork_state test_runtime clean cur ≡ ok branch
    → has_event (fork_event test_runtime "" 0 cur branch).event_id store₀.events ≡ false
unfolding has_event fork_event Event.seal digest sort_keys insert_field str_lt text_of text_at
    lookup take_str
new_branch-fresh clean cur branch c l f = refl

create_branch-IsConsistent_example :
    IsConsistent test_runtime (create_branch test_runtime "side" store₀).1
create_branch-IsConsistent_example =
    create_branch-IsConsistent test_runtime test_runtime-IsHex "side" store₀ store₀-IsConsistent
      new_branch-fresh

-- The first store with a render job of the current state.
abbrev store₁ : Store
store₁ = record store₀ { render_jobs = ("render_1", queued_job) ∷ [] }

store₁-IsConsistent : IsConsistent test_runtime store₁
store₁-IsConsistent = record {
  files = store₀-IsConsistent.files;
  heads = store₀-IsConsistent.heads;
  log = store₀-IsConsistent.log;
}

verdict-fresh :
    (s : SurfaceState)
    → load_state "HEAD" store₁ ≡ ok s
    → has_event
        (verify_event test_runtime "" 0 "render_1" passed s
          (record s { logical_time = suc s.logical_time })).event_id
        store₁.events
      ≡ false
unfolding has_event verify_event Event.seal digest sort_keys insert_field str_lt text_of text_at
    lookup take_str
verdict-fresh s l = refl

verify_render-IsConsistent_example :
    IsConsistent test_runtime (verify_render test_runtime "render_1" passed store₁).1
verify_render-IsConsistent_example =
    verify_render-IsConsistent test_runtime test_runtime-IsHex "render_1" passed store₁
      store₁-IsConsistent verdict-fresh

log_problems_complete_example :
    (log_problems test_runtime store₀ 1 [] store₀.events ≡ [])
    ↔ IsLog test_runtime store₀.states 1 [] store₀.events
log_problems_complete_example = log_problems_complete test_runtime store₀

head_loaded : load_state "HEAD" store₀ ≡ ok (reload state₀)
unfolding load_state read_ref read_state state_exists find exists strip is_space lstrip rstrip
    str_len
head_loaded = from_dict-sort_fields state₀

load_state-Loaded_example : Loaded test_runtime (reload state₀).state_hash store₀ (reload state₀)
load_state-Loaded_example =
    load_state-Loaded test_runtime store₀ "HEAD" (reload state₀) store₀-IsConsistent head_loaded

seal-from_dict_example :
    (State.seal test_runtime (reload state₀)).state_hash
    ≡ (State.seal test_runtime state₀).state_hash
seal-from_dict_example =
    seal-from_dict test_runtime state₀ (reload state₀) (from_dict-sort_fields state₀)

directory : Dir Fields
directory = ("a", dict (("x", str "1") ∷ [])) ∷ []

other_written :
    write_once itself "b" (dict (("x", str "2") ∷ [])) directory
    ≡ ok (directory ++ ("b", dict (("x", str "2") ∷ [])) ∷ [])
unfolding write_once directory find
other_written = refl

first_found : find "a" directory ≡ some (dict (("x", str "1") ∷ []))
unfolding directory find
first_found = refl

Reaches-Extends_example : Extends store₀ (commit_proposal test_runtime proposal₁ none none store₀).1
Reaches-Extends_example = Reaches-Extends test_runtime (step (commits proposal₁ none none) start)

-- A click on the surface.
click : Fields
click = dict (
    ("schema", str "nmsr.interaction/1")
    ∷ ("event_id", str "evt_1")
    ∷ ("session_id", str "session_1")
    ∷ ("branch", str "main")
    ∷ ("action", obj (dict (("kind", str "click") ∷ [])))
    ∷ ("target", obj (dict (("node_id", str "node.surface") ∷ [])))
    ∷ [])

interact-IsConsistent_example : IsConsistent test_runtime (interact test_runtime click store₀).1
interact-IsConsistent_example =
    interact-IsConsistent test_runtime test_runtime-IsHex click store₀ store₀-IsConsistent

abbrev pack : Pack
pack = record { pack_id = "pack"; pack_version = "1"; pack_sha256 = hash₁ }

abbrev booted : Store
booted = (boot test_runtime pack empty_store).1

boot-empty_store_example :
    ((boot test_runtime pack empty_store).0 ≡ ok (genesis test_runtime pack))
    × (read_ref "HEAD" booted ≡ ok (strip is_space (genesis test_runtime pack).state_hash))
boot-empty_store_example = boot-empty_store test_runtime pack

booted-head : read_ref "HEAD" booted ≡ ok (strip is_space (genesis test_runtime pack).state_hash)
booted-head = (boot-empty_store test_runtime pack).1

booted-log : list_events none none booted ≡ ok booted.events
unfolding list_events reads_back boot write_first save_state write_once find set_ref state_exists
    exists writes now save_frame overwrite remove ◌>>=◌ text_of sort_keys
booted-log = refl

verify_replay-boot_example :
    verify_replay test_runtime booted
    ≡ ok (record {
      event_count = length booted.events;
      state_count = length booted.states;
      head = strip is_space (genesis test_runtime pack).state_hash;
      problems = [];
    })
verify_replay-boot_example =
    verify_replay-boot test_runtime test_runtime-IsHex pack
      (strip is_space (genesis test_runtime pack).state_hash) booted.events start booted-head
      booted-log
