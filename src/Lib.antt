-- ===== src/Lib.antt =====
-- agent-pane: a verification library for parts of the execution, tool and platform code.
--
-- The program. A supervisor runs processes for agents and records what they print; tools that a model
-- calls edit files and read process output through an execution runtime.
--
-- What stands where (paths from the repository's root):
--   Prelude     shared notation, lists and texts over the native numbers, saturating arithmetic.
--   Execution   the error codes and results of execution/packages/execution-core, its paths and
--               requests (Execution/Files) and the host as an interface (Execution/Runtime), with
--               what it means to send nothing or one write (Execution/Runtime/Sends) and to read a file
--               in pieces that the host replies with (Execution/Runtime/Pieces).
--   Journal     EventJournal of execution/packages/execution-supervisor-core/src/process/journal.rs:
--               `append_locked`, the operations made of it, `read_now` and `read`. The file is a list
--               of bytes beside the state, an operation returns the state beside its result.
--               Journal/Layout states what a journal represents, Journal/Represents and
--               Journal/Operations are about its operations, Journal/Delivery and Journal/Cursor about
--               what a read returns.
--   HeadTail    HeadTailBuffer of platform/packages/tools/unified-exec/src/buffer.rs.
--   PathResolution
--               platform/packages/tools/filesystem/src: `resolve_path` of lib.rs, which takes a path
--               that a model writes to a root that the host advertises and a path below it, and
--               PathResolution/Normalized, normalized.rs. The tools below call it.
--   Write       the write tool (platform/packages/tools/write/src/lib.rs): `execute`.
--   Edit        the edit tool (platform/packages/tools/edit/src): `prepare` and `apply` of lib.rs,
--               Edit/Matching is matching.rs and Edit/Content is content.rs. `apply` calls the
--               write tool. The loop of the read runs on one round more than the file has bytes.
--   Read        the read tool (platform/packages/tools/read/src): `LineReader` and `read_text` of
--               text.rs, byte by byte; Read/Tool is lib.rs and reader.rs, whose loop runs on one round
--               more than the file has bytes.
--   ApplyPatch  the apply_patch tool (platform/packages/tools/apply-patch/src). Hunk and Parser are
--               parser.rs: `process_line` is a function of the mode and the line, and `parse_patch`
--               runs it over the lines. Update is update.rs: `derive_new_contents` with the search
--               (Update/Seek, where a slice out of range is a panic), the lines with their endings
--               (Update/Source) and the replacements (Update/Replace).
--               Files is filesystem.rs, Tool the types and checks of lib.rs, Apply is apply.rs and
--               `start` and `apply` of lib.rs: a checkpointed step over the host, whose operations
--               (Execution/Runtime) are arguments and can reply in any way. The loops of `read_text`
--               and `apply` run on rounds: for `read_text` one more than the file has bytes, since
--               each reply that is not the last has a byte; for `apply` one for each hunk and each
--               operation, and one for the output. Apply/Progress says where an application stands,
--               Apply/Trace what a host has taken, Apply/Staged and Apply/Performed which operations
--               the hunks stand for.
--               Prepare is prepare.rs, which the harness calls in front of `start` and `apply`.
--
-- Numbers. `u64` and `usize` are natural numbers with the saturating and checked operations written
-- out; `usize` is `u64`. Texts are lists of code points. No definition runs on fuel but where its
-- file says so.
--
-- What is not modelled: the text and details of errors, the schemas and descriptions of the tools,
-- allocations that fail, the clock and the file system, which enter as arguments, serde_json, which
-- enters as a codec with a round trip, and all networking, database and HTTP code.
pub mod Prelude
pub mod Execution
pub mod HeadTail
pub mod Journal
pub mod PathResolution
pub mod Write
pub mod Edit
pub mod Read
pub mod ApplyPatch
