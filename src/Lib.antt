-- ===== src/Lib.antt =====
-- The surface core of Simulation AI (core/src/simulation_ai): a world state that changes only by
-- verified patches, kept with its history in a store of immutable records.
--
-- The parts and their files. The engine (engine.py) is the only part that writes. It reads the
-- current state from the store, checks and applies a proposal to it, plans the render job, and then
-- writes the frame, the state, the event, the job, the refs and the memory, in this order.
--   Json, Json/*          JSON values as Python holds them: dicts in order of insertion, `==` across
--                         types, lists with negative indices, and keys sorted for the digests
--   Runtime               what the core takes from outside: SHA-256 of a value's JSON text, the clock,
--                         `repr` of containers, and Unicode's lower case and letters
--   Result, Exec          functions that raise, and methods that write and may raise; Exec/Triple has
--                         a proof rule for each way to build a method
--   Model, Model/*        core/src/simulation_ai/model.py: the records, `as_dict`, `from_dict`, `seal`;
--                         Model/Proposals is `PatchProposal.from_dict`
--   Patch, Patch/Pointer, Patch/Rules
--                         core/src/simulation_ai/validation.py: `_segments`, `_get`, `_set`, `_remove`,
--                         `_apply_operation`, `validate_proposal`, `apply_proposal`,
--                         `validate_state_invariants`, `validate_interaction`
--   Store, Store/*        core/src/simulation_ai/store.py: a directory is an association list from file
--                         names to contents in the order of change, the log is a list of events, which
--                         `list_events` reads unless `splitlines` cuts one of them (Store/Lines)
--   Render                core/src/simulation_ai/render.py: `build_render_job`, `native_frame_for`,
--                         `verify_candidate`
--   Memory, Memory/Query  core/src/simulation_ai/memory.py: `memory_from_transition`, `query_memories`
--   Adapters, Adapters/*  core/src/simulation_ai/adapters.py: `observe`, `propose`, `_command_operations`
--   Engine, Engine/*      core/src/simulation_ai/engine.py: `commit_proposal` (Commit), `create_branch`,
--                         `switch_branch`, `list_branches` (Branches), `verify_render` (Verify),
--                         `verify_replay` (Replay), `boot` (Boot), `observe`, `propose`, `interact` (Interact),
--                         `_sanitize_packet`, `_clean_branch_name`,
--                         `_validate_packet_parent` (Packet); `query_memory` is in Memory/Query
--   Runs                  core/src/simulation_ai/prompt_runs.py: `_save`, `_load_raw`, `load_model_run`,
--                         `review_model_run`, the listings
--   Workflows             core/src/simulation_ai/workflows.py: `execute`, `_workflow`; the call
--                         of a model for a step is an argument
--   Vault, Vault/*        core/src/simulation_ai/credentials.py: `save`, `unlock`, `lock`, `clear`, `status`,
--                         `import_environment`, `resolve_api_key`, the envelope and its checks
--   Prompts, Prompts/*    core/src/simulation_ai/prompts.py: `PromptSpec`, `PromptRegistry` with `render`,
--                         `validate_output`, `validate_pack`, `catalog`, `route`, the rejection of secret
--                         fields and the report on strict schemas
--   Execution, Execution/*
--                         core/src/simulation_ai/model_execution.py: `execute`, `_provider_response_format`,
--                         `_message_content`, `_extract_output_text`, `_safe_usage`
--   PromptCalls, PromptCalls/Policy
--                         engine.py: `prompt_execute`, `prompt_workflow_execute`, which join the state's
--                         policy, the vault, the prompts, the execution and the runs
--   Downloads, Downloads/Chunks, Downloads/Status, Downloads/Session
--                         core/src/simulation_ai/model_setup.py: `_download_worker`, `_download_chunks`,
--                         `_download_chunk`, `_download_stream`, `_chunk_progress`, `status`,
--                         `start_download`
--   Json/Unordered, Patch/Lens and the other children of Patch, Render/Plan, Render/Retries,
--   Model/State/RoundTrip, Model/Proposals/RoundTrip, Store/Proposals, Store/Log/Latest,
--   Memory/Query/Ranking, Engine/Consistent, Engine/Histories, Engine/Extends, Engine/Committed,
--   Runs/Immutable, Workflows/Steps, Workflows/Planned, Vault/Histories, Execution/Candidate,
--   Execution/Bounded, PromptCalls/Separate, PromptCalls/Steps, Downloads/Session/Ready, the other
--   children of Downloads
--                         the theorems
--   Tests, Tests/*        runs of definitions and of theorems at concrete states
--
-- How the model stands to the code. A method is a function from the store to its outcome and the
-- store after it, so what was written before a raise stays written. The engine holds a lock
-- around every method that writes the world, so these run one after the other, and a history is a
-- sequence of calls. Floats are integers in millionths; the code rounds them to six places. The
-- scores of a query of memories are not rounded before they are compared: there the operations on
-- floats are an argument. A field of a state that a patch can set holds any JSON value, as in
-- Python, whatever its annotation says. Every loop of the code runs over a list, a dict or a text
-- and is a structural recursion here; only the digits of a number are printed with fuel, one more
-- than the number, which has fewer digits. Values of operations are taken not to share parts, and
-- names of files to be what the core makes of its IDs. The files of the store hold what the core
-- wrote: where a record is built from a dict, a field of a record whose type is not the annotated
-- one counts as a TypeError, except that a confidence of an operation may be any number, which is
-- kept as a float.
--
-- The cipher, the key derivation, base64 and random bytes of the vault, the validator of JSON
-- schemas, the replies of the model provider and of the download server and the parser of JSON
-- texts are parameters. Of the cipher and the key derivation it is assumed that they tell apart the
-- passwords that are used. An exception is a kind, without the text of its message. The loops of
-- requests run over the attempts that are allowed, and the chunks of a download one after the
-- other: each has its own file, so their order decides only which error is reported and what is
-- counted on the way. The thread of a download is taken to run from its start to its end between
-- two calls.
--
-- Not modelled: the deposit with which `interact` ends, the engine's snapshot, the diagnostics and the
-- vision probe of model_setup.py, and the parts that keep images, call the image services or the local
-- model, or serve HTTP (encrypted_images.py, memoric.py, image_generation.py, gemma_vision.py,
-- server.py). The Godot client and the scripts are a user interface and file copies.
pub mod Prelude
pub mod Json
pub mod Runtime
pub mod Result
pub mod Model
pub mod Patch
pub mod Exec
pub mod Store
pub mod Render
pub mod Memory
pub mod Adapters
pub mod Engine
pub mod Runs
pub mod Workflows
pub mod Vault
pub mod Prompts
pub mod Execution
pub mod PromptCalls
pub mod Downloads
pub mod Tests
