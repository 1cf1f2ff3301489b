-- ===== src/Lib.antt =====
-- A model of TuFT, a multi-tenant fine-tuning server (src/tuft), and what is proved of it.
--
-- The program. `ServerState` (src/tuft/state.py) holds the session manager, the training controller,
-- the sampling controller and the future registry. A request of a client is authenticated
-- (src/tuft/auth.py), and starts an operation as a future (src/tuft/futures.py), which the client
-- polls. The operation runs on a training run of the controller (src/tuft/training_controller.py),
-- under the run's lock and its sequence numbers, and calls a backend. Sessions, futures, runs and
-- checkpoints are saved through src/tuft/persistence/redis_store.py in Redis, or in the file-backed
-- stand-in of src/tuft/persistence/file_redis.py, and are loaded when the server starts; then
-- `ServerState` brings every run back to its latest checkpoint and fails the futures that are lost.
--
-- Files and code.
--   Base, Dict, Text: shared names, Python's dicts with text keys, `str.strip` and the format of
--     checkpoint names.
--   Names: lists of names as sets, and their normal form.
--   Errors: the exceptions of src/tuft/exceptions.py, with their HTTP status, and the results of
--     calls that return or raise. Texts of messages are shortened where nothing reads them.
--   FileRedis: `FileRedis` and `FileRedisPipeline`, one function per method. FileRedis/View is what
--     a reader sees, FileRedis/Keys that keys are unique, FileRedis/Spec the abstract store,
--     FileRedis/Answers what is answered, FileRedis/Synced the file.
--   Persistence: `save_record`, `load_record` and `delete_record`, over the codec that pydantic gives
--     (`Codec`), in Persistence/Restore the loop of the `_restore_from_redis` methods, and in
--     Persistence/Signature `ConfigSignature` and `validate_config_signature`, with the proofs in
--     Persistence/Mismatch.
--   Paging: the `limit` and `offset` of the list endpoints in src/tuft/state.py,
--     src/tuft/training_controller.py and src/tuft/server.py.
--   Sessions: `AuthenticationDB.authenticate` and `SessionManager`; Sessions/Laws and Sessions/Listed
--     are proofs.
--   Futures: `FutureRecord` and `FutureStore`. Retrieve, Restore and Marking are further methods;
--     Futures/Steps has the life of a registry as a sequence of steps, restarts and expiring keys
--     among them. Effects, Invariant, Restart, Reached, Selected, Answers and Mirror are proofs.
--   Checkpoints: `CheckpointRecord` and `CheckpointMetadata` of src/tuft/checkpoints.py, with the
--     directories on disk; Checkpoints/Geometry reads the adapter's geometry and alpha.
--   Config: `ModelConfig` of src/tuft/config.py; Config/Validators has its validators in their order,
--     and `check_validity`; Config/Accepted and Config/Slots are proofs.
--   Lora: src/tuft/backends/lora_modules.py, from the flags of a client to the targets of PEFT;
--     Lora/Family is src/tuft/backends/vllm_lora_compat.py, from a model to its family, on lists of
--     code points; Lora/Unmatched has the suffix rule of PEFT and the hints on mismatches;
--     Lora/Unmatched/Matched and Lora/Achievable are proofs.
--   Fsdp: src/tuft/backends/fsdp_training_backend.py, what it takes from the configuration and its
--     checks; Fsdp/Startup is a proof, Fsdp/Shards the split of a batch. Fsdp/Worker has the
--     slots of a worker, Fsdp/Pool the creating and removing of adapters; Synced, Initial, Created,
--     Reached and Ready are its proofs. The slots of the workers are dicts, of which torch's tensors
--     are values.
--   Sampling: the records and the index of src/tuft/sampling_controller.py, with Index (dicts with
--     numbers as keys), Requests (creating, sampling, evicting) and Restart; History, Valid, Reached,
--     Evict and Answers are proofs. Sampling/Executor is the loop of src/tuft/sequence_executor.py.
--   Training: `TrainingRunRecord`, the state of `TrainingController`, its guards and the interface
--     of the backends. Training/Runs creates, runs and unloads (Unloaded is a proof); Training/Weights
--     saves, with Compatible (loading), Manage (deleting, publishing), Saved, Reload and Private
--     (proofs); Recovery restores; Views lists runs and checkpoints, with Listed, a proof;
--     Sequence/Calls has histories of calls; the rest of Sequence, Owners and Answers are proofs.
--   Server: `_restore_from_checkpoints` of `ServerState`; Server/Samples is a proof.
--     Server/Overview has `get_session_overview` and `unload_model`, over several controllers.
--   Tests: runs on concrete inputs.
--
-- How state is modelled. A mutable object is a record that is passed on, `self` included, and an
-- operation gives the new state beside what it returns or raises; what was assigned before an
-- exception stays assigned. Methods that hold a lock, or do not await, are one step. Times, fresh
-- uuids and what a wait on an event sees are arguments. Loops are structural recursion on the list
-- that Python iterates over, so few functions need fuel: `decimal` in Text, whose fuel is the number
-- itself plus one, and a number has no more digits than that; and the executor's `process_tasks`, for
-- which the number of waiting tasks is proved to be enough. Times are whole ticks. A request to sample is
-- one step, with the executor of its session idle.
--
-- Parameters. What is outside of the repository is an argument: pydantic's reading and writing
-- (`Codec`), `fnmatch`, `pathlib`'s joining of paths, the parsing of tinker paths, the `model_type`
-- that a config.json on disk gives, the hash of a prompt, and what torch makes of an adapter's
-- weights, the names in its base model, and what Ray gives or raises when the processes of a backend
-- are started (`Torch`). The training and sampling backends are interfaces of operations on a state
-- of their own, any of which may raise.
--
-- Not modelled: the waiting and the timeout of the executor, and its tasks with equal numbers; the
-- tensor work of the backends, and the merging of their metrics. Left out: HTTP and OpenAI routes,
-- telemetry, the console, the command line, the runtime's processes, locks and event loop as such.
pub mod Base
pub mod Text
pub mod Names
pub mod Dict
pub mod Errors
pub mod Persistence
pub mod Paging
pub mod Sessions
pub mod FileRedis
pub mod Futures
pub mod Config
pub mod Lora
pub mod Fsdp
pub mod Sampling
pub mod Checkpoints
pub mod Training
pub mod Server
pub mod Tests
