-- ===== src/Tests/Commits.antt =====
-- A commit of the first proposal, and what the committed state is like.
use simulation_ai.Exec.{writes, ◌>>=◌}
use simulation_ai.Engine.{now, current, put_item}
use simulation_ai.Engine.Commit.{
  plan_queued, plan_verified, plan_job, plan_commit, save_frame_of, write_plan, remember,
  commit_proposal, adjusted, render_mode, render_status, mark_render, packet_part, arguments_of,
  event_of, base_frame, present_frame, frame_at, observation_or,
}
use simulation_ai.Patch.{
  apply_operation, as_object, stamp, apply_proposal, segments, list_place, child, get, with_child,
  set_in, set, remove_in, remove, second_is, no_more, check_segments, check_path, has_operations,
  validate_proposal, in_dict, check_selected, has_required, check_object, check_objects, get_attr,
  check_render, validate_state_invariants, validate_interaction,
}
use simulation_ai.Json.Dict.{lookup, contains, put, erase, get_or, size, keys}
use simulation_ai.Json.Sort.{str_lt, insert_field, sort_keys, sort_items, sort_fields}
use simulation_ai.Json.Equal.{number, py_eq, eq_items, eq_fields}
use simulation_ai.Json.Lists.{
  count, item_at, set_item, insert_item, delete_item, append_item, place, insert_place,
}
use simulation_ai.Json.{texts, items, truthy}
use simulation_ai.Model.{one_of, in_unit}
use simulation_ai.Model.State.{
  as_dict, payload, seal, known_names, text_field, int_field, count_field, float_field, dict_field,
  value_field, empty_layers, from_dict,
}
use simulation_ai.Model.Event.{event_dict}
use simulation_ai.Model.Patch.{
  check_operation, make_operation, operation_dict, operation_dicts, proposal_dict,
}
use simulation_ai.Model.Records.{
  observation_dict, check_record, evidence_dict, memory_dict, job_dict, frame_dict, seal_frame,
}
use simulation_ai.Store.{find, exists, overwrite, contents, write_once}
use simulation_ai.Store.States.{
  sealed, save_state, state_exists, read_ref, read_state, load_state, set_ref, insert_ref,
  list_refs,
}
use simulation_ai.Store.Log.{append_event, on_branch, list_events, has_event, event_id_exists}
use simulation_ai.Store.Lines.{
  is_one_line, reads_back, on_one_line, items_on_one_line, fields_on_one_line,
}
use simulation_ai.Store.Files.{
  save_evidence, load_evidence, evidence_exists, save_proposal, load_proposal, save_memory,
  replace_render_job, save_render_job, load_render_job, sealed_frame, save_frame, limited,
  list_evidence, list_memories, list_render_jobs, list_frames, counts,
}
use simulation_ai.Runtime.{digest, show_nat, str_of}
use simulation_ai.Render.{
  join, iterate, changes_of, without, render_prompt, known_mode, job_mode, render_id, status_of,
  build_render_job, native_frame_for, candidate_frame, outcome_of, verify_candidate,
}
use simulation_ai.Memory.{memory_type_of, memory_from_transition}
use simulation_ai.Prelude.Texts.{
  str_len, take_str, startswith, after_prefix, lstrip, rstrip, strip, is_space, split, replace_pair,
  replace_char, py_int,
}
use simulation_ai.Result.Loops.{each, fold}
use simulation_ai.Model.Event
use simulation_ai.Tests.Fixtures.{text_of, text_at}
use simulation_ai.Prelude.{none, ◌≡◌, refl}
use simulation_ai.Result.{ok}
use simulation_ai.Runtime.{digest}
use simulation_ai.Model.State.{payload}
use simulation_ai.Model.Records.{MemoryRecord}
use simulation_ai.Model.State.RoundTrip.{reload, from_dict-sort_fields}
use simulation_ai.Store.{Store}
use simulation_ai.Engine.Commit.{Plan, commit_proposal}
use simulation_ai.Engine.Committed.{Follows, commit_proposal-Follows}
use simulation_ai.Tests.Fixtures.{test_runtime, proposal₁, state₀, store₀}

committed :
    (plan : Plan) × (memory : MemoryRecord) × (w : Store) × (commit_proposal test_runtime proposal₁
        none none store₀
      ≡ (ok (plan, memory), w))
unfolding commit_proposal Event.seal Event.hash_of text_of text_at writes ◌>>=◌ now current put_item
    plan_queued plan_verified plan_job plan_commit save_frame_of write_plan remember adjusted
    render_mode render_status mark_render packet_part arguments_of event_of base_frame present_frame
    frame_at observation_or apply_operation as_object stamp apply_proposal segments list_place child
    get with_child set_in set remove_in remove second_is no_more check_segments check_path
    has_operations validate_proposal in_dict check_selected has_required check_object check_objects
    get_attr check_render validate_state_invariants validate_interaction lookup contains put erase
    get_or size keys str_lt insert_field sort_keys sort_items sort_fields number py_eq eq_items
    eq_fields count item_at set_item insert_item delete_item append_item place insert_place texts
    items truthy one_of in_unit as_dict payload seal known_names text_field int_field count_field
    float_field dict_field value_field empty_layers from_dict event_dict check_operation
    make_operation operation_dict operation_dicts proposal_dict observation_dict check_record
    evidence_dict memory_dict job_dict frame_dict seal_frame find exists overwrite contents
    write_once sealed save_state state_exists read_ref read_state load_state set_ref insert_ref
    list_refs append_event on_branch list_events has_event event_id_exists is_one_line reads_back
    on_one_line items_on_one_line fields_on_one_line save_evidence load_evidence evidence_exists
    save_proposal load_proposal save_memory replace_render_job save_render_job load_render_job
    sealed_frame save_frame limited list_evidence list_memories list_render_jobs list_frames counts
    digest show_nat str_of join iterate changes_of without render_prompt known_mode job_mode
    render_id status_of build_render_job native_frame_for candidate_frame outcome_of
    verify_candidate memory_type_of memory_from_transition str_len take_str startswith after_prefix
    lstrip rstrip strip is_space split replace_pair replace_char py_int each fold
committed = (_, _, _, refl)

head_loaded : load_state "HEAD" store₀ ≡ ok (reload state₀)
unfolding load_state read_ref read_state state_exists find exists strip is_space lstrip rstrip
    str_len
head_loaded = from_dict-sort_fields state₀

commit_proposal-Follows_example :
    Follows (reload state₀) committed.0.next_state
    × (committed.0.next_state.state_hash ≡ digest test_runtime (payload committed.0.next_state))
commit_proposal-Follows_example =
    commit_proposal-Follows test_runtime proposal₁ none none store₀ committed.2 (reload state₀)
      committed.0 committed.1 head_loaded committed.3
