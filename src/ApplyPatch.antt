-- ===== src/ApplyPatch.antt =====
-- The apply_patch tool (platform/packages/tools/apply-patch/src): a parser of freeform patches, the
-- derivation of a file's new contents, and the checkpointed application of a prepared patch.
pub mod Hunk
pub mod Parser
pub mod Update
pub mod InOrder
pub mod Files
pub mod Tool
pub mod Apply
pub mod Prepare
