-- ===== src/Write/Tests.antt =====
-- A run of the write tool, and its theorem at a concrete input.
use agent_pane.Prelude.{
  ◌≡◌, refl, true, none, codes, text_eq, trim, starts_with, strip_prefix, byte_len,
}
use agent_pane.Execution.{ok}
use agent_pane.Execution.Runtime.Sends.{SendsOnce}
use agent_pane.Execution.Runtime.{pure, call, ◌>>=◌}
use agent_pane.Execution.Runtime.Counting.{target, counting, NoneSent, OneSent, counting-IsHost}
use agent_pane.Write.{WriteInput, WriteState, WriteTool, execute}
use agent_pane.Write.Sending.{IsGuarded, IsWritten, execute-SendsOnce}

abbrev tool : WriteTool
tool = record { cwd = target; config = record { max_content_bytes = 10 } }

abbrev input : WriteInput
input = record { file_path = codes "/w/b"; content = codes "x\n" }

abbrev state : WriteState
state = record { operation_id = codes "o"; observed = none }

writes_file : execute counting tool input state 0 ≡ (
  1,
  ok (record {
    host_id = codes "h";
    path = record { root_id = codes "r"; path = codes "b" };
    created = true;
    bytes_written = 2;
    revision = codes "1";
  }),
)
unfolding execute codes text_eq trim starts_with strip_prefix byte_len pure call ◌>>=◌
writes_file = refl

execute-SendsOnce_example :
    SendsOnce NoneSent OneSent
      (IsWritten counting tool input state)
      (execute counting tool input state)
execute-SendsOnce_example =
    execute-SendsOnce counting tool input state NoneSent OneSent
      (counting-IsHost (IsGuarded counting tool input state))
