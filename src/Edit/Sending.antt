-- ===== src/Edit/Sending.antt =====
-- What the edit tool asks of the host (lib.rs of edit): nothing but reads where an edit is prepared, and
-- one write where it is applied.
use agent_pane.Prelude.{
  ℕ, min, [], ◌∷◌, ◌≡◌, refl, sym, Bool, true, false, ◌||◌, not, Text, codes, text_eq, text_eq_iff,
  byte_len, is_empty, ltb, ◌==◌, arith, ◌≤◌,
}
use agent_pane.Execution.{ok}
use agent_pane.Execution.Post.{Post, returns, fails, Post-if, Post-bind, Post-self}
use agent_pane.Execution.Files.{
  path_eq_lem, path_eq, is_valid_path, match_revision, WriteFileRequest,
}
use agent_pane.Execution.Runtime.{Descriptor, has_read_only, or_max, Runtime}
use agent_pane.Execution.Runtime.Sends.{
  IsHost, IsQuiet, SendsOnce, Quiet-pure, Quiet-call, Quiet-bind, Sends-bind, Sends-then,
}
use agent_pane.PathResolution.{has_root, resolve_path}
use agent_pane.PathResolution.Rooted.{IsRooted, validate_cwd-Post, resolve_path-IsRooted}
use agent_pane.Write.{ObservedFile, WriteTool, WriteOutput, write_limit}
use agent_pane.Write
use agent_pane.Write.Sending.{IsConditional, IsGuarded, IsWritten, execute-SendsOnce}
use agent_pane.Edit.{
  EditInput, EditState, EditTool, PreparedEdit, EditOutput, validate_observation, check_input,
  check_observed, output_of, write_input, write_state, prepare, apply,
}
use agent_pane.Edit.Matching.{replace}
use agent_pane.Edit.Reading.{IsContent, read-IsContent}
use agent_pane.Edit.Replacement.{IsResult, replace-IsResult}

-- What is checked of an observation.
pub record IsEditable (host : Descriptor) (observed : ObservedFile) : Type 0 where
  pub host_lem : observed.host_id ≡ host.host_id
  pub valid : is_valid_path observed.path ≡ true
  pub advertised : has_root observed.path.root_id host.roots ≡ true
  pub below : text_eq observed.path.path (codes ".") ≡ false
  pub writable : has_read_only observed.path.root_id host.roots ≡ false

pub validate_observation-IsEditable :
    (host : Descriptor) (observed : ObservedFile)
    → Post (λ u. IsEditable host observed) (validate_observation host observed)
unfolding validate_observation
validate_observation-IsEditable host observed =
    Post-if _ (not (text_eq observed.host_id host.host_id)) _ _ (λ a. fails _)
      (λ a.
        Post-bind
          (λ u.
            (is_valid_path observed.path ≡ true)
            × (has_root observed.path.root_id host.roots ≡ true))
          _ _ _ (validate_cwd-Post host observed.path)
          (λ u (v, r).
            Post-if _ (text_eq observed.path.path (codes ".")) _ _ (λ b. fails _)
              (λ b.
                Post-if _ (has_read_only observed.path.root_id host.roots) _ _ (λ c. fails _)
                  (λ c. returns tt (record {
                    host_lem = (text_eq_iff observed.host_id host.host_id).0 (ground arith);
                    valid = v;
                    advertised = r;
                    below = b;
                    writable = c;
                  })))))

check_observed-Post :
    (host : Descriptor) (tool : EditTool) (input : EditInput) (state : EditState)
    → Post
        (λ u.
          IsEditable host state.observed
          × (resolve_path host tool.cwd input.file_path ≡ ok state.observed.path))
        (check_observed host tool input state)
unfolding check_observed
check_observed-Post host tool input state =
    Post-bind (λ p. resolve_path host tool.cwd input.file_path ≡ ok p) _ _ _
      (Post-self (IsRooted host) _ (resolve_path-IsRooted host tool.cwd input.file_path))
      (λ p e.
        Post-bind (λ u. IsEditable host state.observed) _ _ _
          (validate_observation-IsEditable host state.observed)
          (λ u h.
            Post-if _ (not (path_eq p state.observed.path)) _ _ (λ b. fails _)
              (λ b.
                let f : p ≡ state.observed.path =
                  path_eq_lem p state.observed.path (ground arith) in
                returns tt (h, rw f at e))))

check_input-Post :
    (tool : EditTool) (input : EditInput)
    → Post (λ u. is_empty input.old_string ≡ false) (check_input tool input)
unfolding check_input
check_input-Post tool input =
    Post-if _ (is_empty input.old_string) _ _ (λ a. fails _)
      (λ a.
        Post-if _ (text_eq input.old_string input.new_string) _ _ (λ b. fails _)
          (λ b.
            Post-if _
              (ltb tool.config.max_file_bytes (byte_len input.old_string)
                || ltb tool.config.max_file_bytes (byte_len input.new_string))
              _ _ (λ c. fails _) (λ c. returns tt a)))

module _ {World : Type 0} (runtime : Runtime World) (tool : EditTool) where
  -- A prepared edit: the content of the observed file with the text replaced as it was asked for.
  pub record IsPrepared (input : EditInput) (state : EditState) (prepared : PreparedEdit)
      : Type 0 where
    pub state_lem : prepared.state ≡ state
    pub resolved : resolve_path runtime.descriptor tool.cwd input.file_path ≡ ok state.observed.path
    pub editable : IsEditable runtime.descriptor state.observed
    pub source : Text
    pub content_lem :
        IsContent runtime state.observed.path state.observed.revision tool.config.max_file_bytes
          source
    pub max_bytes : ℕ
    pub max_bytes_lem :
        max_bytes ≡ min tool.config.max_file_bytes (or_max runtime.descriptor.max_write_bytes)
    pub result :
        IsResult input.replace_all source input.old_string input.new_string max_bytes
          (prepared.content, prepared.replacements)

  replace_any :
      (Before After : World → Type 0) (Allowed : WriteFileRequest → Type 0)
      → IsHost Before After Allowed runtime
      → (source old new : Text) (all : Bool) (max_bytes : ℕ) → is_empty old ≡ false
      → IsQuiet Before After
          (IsResult all source old new max_bytes)
          (replace runtime source old new all max_bytes)
  replace_any Before After Allowed host source [] new all max_bytes e = absurd (cc)
  replace_any Before After Allowed host source (o ∷ os) new all max_bytes e =
      replace-IsResult runtime Before After Allowed host source o os new max_bytes all

  -- Whatever the host replies, `prepare` writes nothing and does not panic. What it returns is for the
  -- file that the path resolves to, which is the observed one and can be written, and has the content
  -- that replaces the text as it was asked for in the text of this file at its observed revision, as the
  -- host replied with it, with no more bytes than allowed.
  pub prepare-IsPrepared :
      (Before After : World → Type 0) (Allowed : WriteFileRequest → Type 0)
      → IsHost Before After Allowed runtime
      → (input : EditInput) (state : EditState)
      → IsQuiet Before After (IsPrepared input state) (prepare runtime tool input state)
  unfolding prepare
  prepare-IsPrepared Before After Allowed host input state =
      Quiet-bind Before After _ _ _ _
        (Quiet-call Before After runtime.checkpoint host.checkpoint_lem)
        (λ u _.
          Quiet-bind Before After _ _ _ _
            (Quiet-pure Before After _ _ (check_input-Post tool input))
            (λ u old.
              Quiet-bind Before After _ _ _ _
                (Quiet-pure Before After _ _
                  (check_observed-Post runtime.descriptor tool input state))
                (λ u (e, r).
                  Quiet-bind Before After _ _ _ _
                    (read-IsContent runtime Before After Allowed host state.observed.path
                      state.observed.revision tool.config.max_file_bytes tool.config.chunk_bytes)
                    (λ source c.
                      Quiet-bind Before After _ _ _ _
                        (replace_any Before After Allowed host source input.old_string
                          input.new_string input.replace_all _ old)
                        (λ (content, n) result.
                          Quiet-bind Before After _ _ _ _
                            (Quiet-call Before After runtime.checkpoint host.checkpoint_lem)
                            (λ u _. Quiet-pure Before After _ _ (
                              returns _ (record {
                                state_lem = refl;
                                resolved = r;
                                editable = e;
                                source = source;
                                content_lem = c;
                                max_bytes = _;
                                max_bytes_lem = refl;
                                result = result;
                              }))))))))

  -- The one write of a prepared edit: its whole content, to the observed file, on condition that it is as it was
  -- observed.
  pub record IsEdit (prepared : PreparedEdit) (request : WriteFileRequest) : Type 0 where
    pub path_lem : request.path ≡ prepared.state.observed.path
    pub condition_lem : request.condition ≡ match_revision prepared.state.observed.revision
    pub whole : request.data_bytes ≡ runtime.into_bytes prepared.content
    pub replayable : request.operation_id ≡ prepared.state.operation_id
    pub editable : IsEditable runtime.descriptor prepared.state.observed
    pub changes : (prepared.replacements == 0) ≡ false
    pub fits :
        byte_len prepared.content
        ≤ min tool.config.max_file_bytes (or_max runtime.descriptor.max_write_bytes)

  -- A success: the observed file is written, with as many bytes as the content has.
  pub record IsApplied (prepared : PreparedEdit) (output : EditOutput) : Type 0 where
    pub host_lem : output.host_id ≡ runtime.descriptor.host_id
    pub path_lem : output.path ≡ prepared.state.observed.path
    pub bytes_lem : output.bytes_written ≡ byte_len prepared.content
    pub replacements_lem : output.replacements ≡ prepared.replacements

  writer : PreparedEdit → WriteTool
  writer prepared = record {
    cwd = record { root_id = prepared.state.observed.path.root_id; path = codes "." };
    config = record { max_content_bytes = tool.config.max_file_bytes };
  }

  guarded-IsEdit :
      (prepared : PreparedEdit) (request : WriteFileRequest)
      → IsEditable runtime.descriptor prepared.state.observed
      → (prepared.replacements == 0) ≡ false
      → IsGuarded runtime (writer prepared) (write_input prepared) (write_state prepared) request
      → IsEdit prepared request
  unfolding IsConditional writer
  guarded-IsEdit prepared request e n g =
      let (c, h, p) = g.conditional in
      record {
        path_lem = sym p;
        condition_lem = c;
        whole = g.whole;
        replayable = g.replayable;
        editable = e;
        changes = n;
        fits = g.writable.fits;
      }

  applied :
      (prepared : PreparedEdit) (output : WriteOutput)
      → IsWritten runtime (writer prepared) (write_input prepared) (write_state prepared) output
      → IsApplied prepared (output_of prepared output)
  unfolding IsConditional
  applied prepared output w =
      let (c, h, p) = w.conditional in
      record {
        host_lem = w.host_lem;
        path_lem = sym p;
        bytes_lem = w.bytes_lem;
        replacements_lem = refl;
      }

  new-Post :
      (prepared : PreparedEdit)
      → Post
          (λ t. t ≡ writer prepared)
          (Write.new runtime.descriptor
            (record { root_id = prepared.state.observed.path.root_id; path = codes "." })
            (record { max_content_bytes = tool.config.max_file_bytes }))
  unfolding Write.new writer
  new-Post prepared =
      Post-bind _ _ _ _
        (validate_cwd-Post runtime.descriptor
          (record { root_id = prepared.state.observed.path.root_id; path = codes "." }))
        (λ u _.
          Post-if _ (tool.config.max_file_bytes == 0) _ _ (λ b. fails _) (λ b. returns _ refl))

  -- Whatever the host replies, `apply` asks for at most one write, after every other request: that of
  -- the prepared content to the observed file, on condition that its revision is the observed one.
  -- Without it there is an error; with it, an error or a success that tells of this write.
  pub apply-SendsOnce :
      (Before After : World → Type 0) (prepared : PreparedEdit)
      → IsHost Before After (IsEdit prepared) runtime
      → SendsOnce Before After (IsApplied prepared) (apply runtime tool prepared)
  unfolding apply
  apply-SendsOnce Before After prepared host =
      Sends-bind Before After _ _ _ _
        (Quiet-call Before After runtime.checkpoint host.checkpoint_lem)
        (λ u _.
          Sends-bind Before After _ _ _ _
            (Quiet-pure Before After _ _
              (validate_observation-IsEditable runtime.descriptor prepared.state.observed))
            (λ u e.
              Sends-bind Before After (λ u. (prepared.replacements == 0) ≡ false) _ _ _
                (Quiet-pure Before After _ _
                  (Post-if _ (prepared.replacements == 0) _ _ (λ b. fails _) (λ b. returns tt b)))
                (λ u n.
                  Sends-bind Before After (λ t. t ≡ writer prepared) _ _ _
                    (Quiet-pure Before After _ _ (new-Post prepared))
                    (λ t w. rw w (
                      Sends-then Before After _ _ _ _
                        (execute-SendsOnce runtime (writer prepared) (write_input prepared)
                          (write_state prepared) Before After (narrowed e n))
                        (λ output h. returns _ (applied prepared output h)))))))
    where
      narrowed :
          IsEditable runtime.descriptor prepared.state.observed
          → (prepared.replacements == 0) ≡ false
          → IsHost Before After
              (IsGuarded runtime (writer prepared) (write_input prepared) (write_state prepared))
              runtime
      narrowed e n = record {
        checkpoint_lem = host.checkpoint_lem;
        stat_lem = host.stat_lem;
        read_lem = host.read_lem;
        write_lem =
            λ request w g b. host.write_lem request w (guarded-IsEdit prepared request e n g) b;
      }
