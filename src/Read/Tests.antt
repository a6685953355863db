-- ===== src/Read/Tests.antt =====
-- Runs of the read tool, and its theorems at concrete inputs.
use agent_pane.Prelude.{ℕ, List, ◌≡◌, refl, true, false, none, some, Option, Text, codes}
use agent_pane.Execution.{ok, err, invalid_request}
use agent_pane.Execution.Post.{Post}
use agent_pane.Read.{ReadConfig, line_limit, read_text}
use agent_pane.Execution.Runtime.Counting.{target}
use agent_pane.Read.Tool.{ReadInput, ReadTool}
use agent_pane.Read.Reading.{IsWindow, read_text-IsWindow}

abbrev config : ReadConfig
config = record { max_lines = 2; max_output_bytes = 300; max_scan_bytes = 100; chunk_bytes = 10 }

abbrev plain : List ℕ → Option Text
plain bytes = some bytes

cuts_off :
    read_text plain (codes "a\nb\nc\n") (some 2) (some 1) config
    ≡ ok (record {
      content = codes "b\n";
      start_line = 2;
      end_line = some 2;
      eof = false;
      truncation = some line_limit;
      next_offset = some 3;
    })
unfolding read_text codes
cuts_off = refl

reaches_end :
    read_text plain (codes "a\nb\nc") (some 2) none config
    ≡ ok (record {
      content = codes "b\nc";
      start_line = 2;
      end_line = some 3;
      eof = true;
      truncation = none;
      next_offset = none;
    })
unfolding read_text codes
reaches_end = refl

beyond_end : read_text plain (codes "a\n") (some 2) none config ≡ err invalid_request
unfolding read_text codes
beyond_end = refl

read_text-IsWindow_example :
    Post
      (IsWindow plain 2 1 (codes "a\nb\n"))
      (read_text plain (codes "a\nb\n") (some 2) (some 1) config)
read_text-IsWindow_example = read_text-IsWindow plain (codes "a\nb\n") (some 2) (some 1) config

abbrev tool : ReadTool
tool = record { cwd = target; config = config }

abbrev input : ReadInput
input = record { file_path = codes "/w/a"; offset = none; limit = none }
