-- ===== src/Read.antt =====
-- The lines that the tool `read` takes of a text (text.rs of platform/packages/tools/read/src, with
-- `ReadConfig` of lib.rs). A text is its bytes; `from_utf8` is a parameter. The sums of `usize` are not
-- bounded: they are compared with the budget at each byte.
pub mod Window
pub mod Feeding
pub mod Reading
pub mod Tool
pub mod Hosted
mod Tests
use agent_pane.Prelude.{
  ℕ, ◌+◌, ◌-◌, min, max, List, [], ◌∷◌, ◌++◌, Bool, true, false, ◌&&◌, ◌||◌, not, Option, none,
  some, Text, digits, is_some, is_empty, length, leb, ltb, ◌==◌, if◌then◌else◌, on_some,
}
use agent_pane.Prelude.Machine.{checked_add}
use agent_pane.Execution.{
  Result, ok, err, panic, ◌>>=◌, invalid_request, unsupported, resource_exhausted,
}

-- `FOOTER_RESERVE`
abbrev pub footer_reserve : ℕ
footer_reserve = 256

pub record ReadConfig : Type 0 where
  pub max_lines : ℕ
  pub max_output_bytes : ℕ
  pub max_scan_bytes : ℕ
  pub chunk_bytes : ℕ

pub data Truncation : Type 0 where
  line_limit byte_limit : Truncation

pub record TextReadOutput : Type 0 where
  pub content : Text
  pub start_line : ℕ
  pub end_line : Option ℕ
  pub eof : Bool
  pub truncation : Option Truncation
  pub next_offset : Option ℕ

pub record LineReader : Type 0 where
  pub output : TextReadOutput
  pub limit : ℕ
  pub budget : ℕ
  pub number : ℕ
  pub line : List ℕ
  pub rendered_bytes : ℕ

unfoldable pub new : ℕ → ℕ → ReadConfig → Result LineReader
new start limit config =
    if (start == 0)
      || (limit == 0)
      || (config.max_lines == 0)
      || leb config.max_output_bytes footer_reserve
    then err invalid_request
    else ok (record {
      output = record {
        content = [];
        start_line = start;
        end_line = none;
        eof = false;
        truncation = none;
        next_offset = none;
      };
      limit = min limit config.max_lines;
      budget = config.max_output_bytes - footer_reserve;
      number = 1;
      line = [];
      rendered_bytes = 0;
    })

-- The lines are as many as asked for; a subtraction below 0 is a panic.
unfoldable pub is_full : Option ℕ → ℕ → ℕ → Result Bool
is_full none start limit = ok false
is_full (some last) start limit =
    if ltb last start then panic else ok (leb limit (last - start + 1))

-- The number in front of a line, padded to six places, with a tab.
unfoldable pub prefix_len : ℕ → ℕ
unfolding digits
prefix_len number = max (length (digits (number + 1) number [])) 6 + 1

abbrev pub ends_line : List ℕ → Bool
ends_line [] = false
ends_line (c ∷ []) = c == 10
ends_line (c ∷ d ∷ s) = ends_line (d ∷ s)

-- The window is cut off in front of the line.
abbrev pub stopped : Truncation → LineReader → LineReader
stopped truncation r = record r {
  output = record r.output { truncation = some truncation; next_offset = some r.number };
}

unfoldable pub next_line : LineReader → Result (LineReader × Bool)
unfolding checked_add
next_line r =
    on_some (checked_add r.number 1) (λ n. ok (record r { number = n }, false))
      (err resource_exhausted)

-- `Option::unwrap_or`
abbrev pub or_default : Option ℕ → ℕ → ℕ
or_default none n = n
or_default (some k) n = k

module _ (from_utf8 : List ℕ → Option Text) where
  -- `LineReader::append`
  unfoldable pub append : LineReader → Result LineReader
  unfolding prefix_len
  append r =
      on_some (from_utf8 r.line)
        (λ text. ok (record r {
          rendered_bytes =
              r.rendered_bytes
              + (prefix_len r.number + length r.line + (if ends_line r.line then 0 else 1));
          output = record r.output { content = r.output.content ++ text; end_line = some r.number };
          line = [];
        }))
        (err unsupported)

  -- A byte of a line of the window.
  unfoldable pub push_byte : ℕ → LineReader → Result (LineReader × Bool)
  unfolding append next_line prefix_len
  push_byte byte r =
      let size =
        r.rendered_bytes
        + prefix_len r.number
        + (length r.line + 1)
        + (if byte == 10 then 0 else 1) in
      if ltb r.budget size
      then (if is_some r.output.end_line
          then ok (stopped byte_limit (record r { line = r.line ++ byte ∷ [] }), true)
          else err resource_exhausted)
      else if byte == 10
      then (append (record r { line = r.line ++ byte ∷ [] }) >>= λ more. next_line more)
      else ok (record r { line = r.line ++ byte ∷ [] }, false)

  -- `LineReader::feed`: the reader, and whether the window is cut off.
  unfoldable pub feed : ℕ → LineReader → Result (LineReader × Bool)
  unfolding is_full push_byte next_line
  feed byte r = is_full r.output.end_line r.output.start_line r.limit >>= λ full.
      if full
      then ok (stopped line_limit r, true)
      else if byte == 0
      then err unsupported
      else if leb r.output.start_line r.number
      then push_byte byte r
      else if byte == 10
      then next_line r
      else ok (r, false)

  -- `LineReader::finish`
  unfoldable pub finish : Bool → LineReader → Result TextReadOutput
  unfolding append
  finish empty r = (if is_empty r.line then ok r else append r) >>= λ last.
      if not (is_some last.output.end_line) && not (empty && last.output.start_line == 1)
      then err invalid_request
      else ok (record last.output { eof = true })

  -- The loop of `read_text` from an index on.
  unfoldable pub feed_all : ℕ → ℕ → List ℕ → LineReader → Result (LineReader × Bool)
  unfolding feed
  feed_all max_scan_bytes index [] r = ok (r, false)
  feed_all max_scan_bytes index (byte ∷ bytes) r =
      if leb max_scan_bytes index
      then err resource_exhausted
      else (feed byte r >>= λ (more, done).
          let rest = feed_all max_scan_bytes (index + 1) bytes more in
          if done then ok (more, true) else rest)

  unfoldable pub read_text : List ℕ → Option ℕ → Option ℕ → ReadConfig → Result TextReadOutput
  unfolding new feed_all finish
  read_text source offset limit config =
      new (or_default offset 1) (or_default limit config.max_lines) config >>= λ reader.
      feed_all config.max_scan_bytes 0 source reader >>= λ (r, done).
      if done then ok r.output else finish (is_empty source) r
