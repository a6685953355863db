-- ===== src/HeadTail.antt =====
-- The bounded process output of the unified-exec tool
-- (platform/packages/tools/unified-exec/src/buffer.rs): a stable prefix and the newest suffix.
-- `text` is not modelled: it decodes the retained bytes lossily.
pub mod Refinement
mod Tests
use agent_pane.Prelude.{
  ℕ, ◌-◌, ◌+◌, ◌/◌, min, List, [], ◌∷◌, ◌++◌, length, is_empty, take, drop, ltb, if◌then◌else◌,
}
use agent_pane.Prelude.Machine.{saturating_add, u64_max}

pub record HeadTailBuffer : Type 0 where
  pub head : List ℕ
  pub tail : List ℕ
  pub max_bytes : ℕ
  pub omitted_bytes : ℕ

pub new : ℕ → HeadTailBuffer
new max_bytes = record { head = []; tail = []; max_bytes = max_bytes; omitted_bytes = 0 }

pub head_budget : HeadTailBuffer → ℕ
head_budget b = b.max_bytes / 2

pub tail_budget : HeadTailBuffer → ℕ
unfolding head_budget
tail_budget b = b.max_bytes - head_budget b

pub retained_bytes : HeadTailBuffer → ℕ
retained_bytes b = saturating_add (length b.head) (length b.tail)

pub total_bytes : HeadTailBuffer → ℕ
unfolding retained_bytes
total_bytes b = saturating_add (min (retained_bytes b) u64_max) b.omitted_bytes

-- The part of `push` behind the early return: the tail takes what the head left over.
pub push_tail : HeadTailBuffer → List ℕ → HeadTailBuffer
unfolding tail_budget
push_tail b input =
    let combined_len = saturating_add (length b.tail) (length input) in
    let omitted = combined_len - tail_budget b in
    let keep_previous = length b.tail - min omitted (length b.tail) in
    let skipped_input = omitted - length b.tail in
    record b {
      omitted_bytes = saturating_add b.omitted_bytes (min omitted u64_max);
      tail =
          drop (length b.tail - keep_previous) b.tail
          ++ drop (min skipped_input (length input)) input;
    }

pub push : HeadTailBuffer → List ℕ → HeadTailBuffer
unfolding head_budget
push b input =
    let head_remaining = head_budget b - length b.head in
    let head_len = min (length input) head_remaining in
    let b' = if ltb 0 head_len then record b { head = b.head ++ take head_len input } else b in
    let rest = drop head_len input in if is_empty rest then b' else push_tail b' rest

-- The chunks of a process's output, in their order.
pub push_all : HeadTailBuffer → List (List ℕ) → HeadTailBuffer
push_all b [] = b
push_all b (input ∷ inputs) = push_all (push b input) inputs
