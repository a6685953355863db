-- ===== src/Write/Sending.antt =====
-- What `WriteTool::execute` (lib.rs of write) asks of the host, and what it returns.
use agent_pane.Prelude.{
  ℕ, ◌≤◌, ◌≡◌, refl, Bool, true, false, ◌||◌, not, Option, none, some, Text, codes, text_eq,
  text_eq_iff, same, byte_len, is_some, ltb, ◌==◌, arith,
}
use agent_pane.Execution.{ok}
use agent_pane.Execution.Post.{Post, returns, fails, Post-if, Post-with}
use agent_pane.Execution.Files.{
  path_eq_lem, ExecutionPath, path_eq, WriteCondition, must_not_exist, match_revision,
  WriteFileRequest, WriteFileResult,
}
use agent_pane.Execution.Runtime.{Descriptor, has_read_only, Runtime}
use agent_pane.Execution.Runtime.Sends.{
  IsHost, SendsOnce, Quiet-pure, Quiet-call, Sends-bind, Sends-call,
}
use agent_pane.PathResolution.{resolve_path}
use agent_pane.PathResolution.Rooted.{IsRooted, resolve_path-IsRooted}
use agent_pane.Write.{
  ObservedFile, WriteInput, WriteState, WriteOutput, WriteTool, write_limit, condition,
  check_target, written, write_request, execute,
}

-- The write is on condition that the file does not exist, or that it is as it was observed.
unfoldable pub IsConditional :
    Descriptor → ExecutionPath → Option ObservedFile → WriteCondition → Type 0
IsConditional host path none c = c ≡ must_not_exist
IsConditional host path (some o) c =
    (c ≡ match_revision o.revision) × (o.host_id ≡ host.host_id) × (o.path ≡ path)

-- What is checked of a target in front of the write.
pub record IsWritable (host : Descriptor) (limit : ℕ) (content : Text) (path : ExecutionPath)
    : Type 0 where
  pub rooted : IsRooted host path
  pub below : text_eq path.path (codes ".") ≡ false
  pub writable : has_read_only path.root_id host.roots ≡ false
  pub fits : byte_len content ≤ limit

pub condition-Post :
    (host : Descriptor) (path : ExecutionPath) (observed : Option ObservedFile)
    → Post (IsConditional host path observed) (condition host path observed)
unfolding condition IsConditional
condition-Post host path none = returns must_not_exist refl
condition-Post host path (some o) =
    Post-if _ (not (text_eq o.host_id host.host_id) || not (path_eq o.path path)) _ _ (λ b. fails _)
      (λ b. returns (match_revision o.revision) (
        refl,
        (text_eq_iff o.host_id host.host_id).0 (ground arith),
        path_eq_lem o.path path (ground arith),
      ))

pub check_target-Post :
    (host : Descriptor) (tool : WriteTool) (input : WriteInput) (path : ExecutionPath)
    → IsRooted host path
    → Post
        (λ u. IsWritable host (write_limit host tool) input.content path)
        (check_target host tool input path)
unfolding check_target
check_target-Post host tool input path r =
    Post-if _ (ltb (write_limit host tool) (byte_len input.content)) _ _ (λ b. fails _)
      (λ b.
        Post-if _ (text_eq path.path (codes ".")) _ _ (λ c. fails _)
          (λ c.
            Post-if _ (has_read_only path.root_id host.roots) _ _ (λ d. fails _)
              (λ d.
                returns tt (record { rooted = r; below = c; writable = d; fits = ground arith }))))

module _ {World : Type 0} (runtime : Runtime World) (tool : WriteTool) (input : WriteInput)
    (state : WriteState) where
  -- The one write that the tool may send: the whole content, to the file that the path resolves to, which
  -- lies below a writable root, on condition of what was observed.
  pub record IsGuarded (request : WriteFileRequest) : Type 0 where
    pub resolved : resolve_path runtime.descriptor tool.cwd input.file_path ≡ ok request.path
    pub writable :
        IsWritable runtime.descriptor
          (write_limit runtime.descriptor tool)
          input.content
          request.path
    pub conditional : IsConditional runtime.descriptor request.path state.observed request.condition
    pub whole : request.data_bytes ≡ runtime.into_bytes input.content
    pub replayable : request.operation_id ≡ state.operation_id

  -- A success: the file that was to be written is, with as many bytes as the content has, and is new
  -- exactly where nothing was observed.
  pub record IsWritten (output : WriteOutput) : Type 0 where
    pub host_lem : output.host_id ≡ runtime.descriptor.host_id
    pub resolved : resolve_path runtime.descriptor tool.cwd input.file_path ≡ ok output.path
    pub bytes_lem : output.bytes_written ≡ byte_len input.content
    pub created_lem : output.created ≡ not (is_some state.observed)
    pub expected : WriteCondition
    pub conditional : IsConditional runtime.descriptor output.path state.observed expected

  same_lem : (a b : Bool) → same a b ≡ true → a ≡ b
  same_lem true true h = refl
  same_lem true false h = absurd (cc)
  same_lem false true h = absurd (cc)
  same_lem false false h = refl

  written-Post :
      (path : ExecutionPath) (c : WriteCondition) (result : WriteFileResult)
      → IsConditional runtime.descriptor path state.observed c
      → resolve_path runtime.descriptor tool.cwd input.file_path ≡ ok path
      → Post IsWritten (written runtime.descriptor input state path result)
  unfolding written
  written-Post path c result k e =
      Post-if _
        (not (path_eq result.path path)
          || not (result.bytes_written == byte_len input.content)
          || not (same result.existed (is_some state.observed)))
        _ _ (λ b. fails _)
        (λ b.
          let f : result.existed ≡ is_some state.observed = same_lem _ _ (ground arith) in
          returns _ (record {
            host_lem = refl;
            resolved = e;
            bytes_lem = ground arith;
            created_lem = rw f;
            expected = c;
            conditional = k;
          }))

  -- Whatever the host replies, `execute` asks for at most one write, after every other request: a
  -- guarded one. Without it there is an error; with it, an error or a success that tells of this write.
  pub execute-SendsOnce :
      (Before After : World → Type 0)
      → IsHost Before After IsGuarded runtime
      → SendsOnce Before After IsWritten (execute runtime tool input state)
  unfolding execute
  execute-SendsOnce Before After host =
      Sends-bind Before After _ _ _ _
        (Quiet-call Before After runtime.checkpoint host.checkpoint_lem)
        (λ u _.
          Sends-bind Before After
            (λ path.
              IsRooted runtime.descriptor path
              × (resolve_path runtime.descriptor tool.cwd input.file_path ≡ ok path))
            _ _ _ (Quiet-pure Before After _ _ resolved)
            (λ path (r, e).
              Sends-bind Before After
                (λ u.
                  IsWritable runtime.descriptor (write_limit runtime.descriptor tool) input.content
                    path)
                _ _ _
                (Quiet-pure Before After _ _
                  (check_target-Post runtime.descriptor tool input path r))
                (λ u g.
                  Sends-bind Before After (IsConditional runtime.descriptor path state.observed) _ _
                    _
                    (Quiet-pure Before After _ _
                      (condition-Post runtime.descriptor path state.observed))
                    (λ c k.
                      Sends-call Before After IsWritten
                        (runtime.write (write_request runtime input state path c))
                        (λ result. written runtime.descriptor input state path result)
                        (λ w b.
                          host.write_lem (write_request runtime input state path c) w
                            (record {
                              resolved = e;
                              writable = g;
                              conditional = k;
                              whole = refl;
                              replayable = refl;
                            })
                            b)
                        (λ result. written-Post path c result k e)))))
    where
      resolved :
          Post
            (λ path.
              IsRooted runtime.descriptor path
              × (resolve_path runtime.descriptor tool.cwd input.file_path ≡ ok path))
            (resolve_path runtime.descriptor tool.cwd input.file_path)
      resolved = Post-with _ _ (resolve_path-IsRooted runtime.descriptor tool.cwd input.file_path)
