-- ===== src/Read/Reading.antt =====
-- `read_text` of text.rs as a whole: the window that it returns.
use agent_pane.Prelude.{
  ℕ, ◌+◌, ◌-◌, ◌≤◌, min, List, [], ◌∷◌, ◌++◌, ◌≡◌, refl, sym, ap, ◌∙◌, Bool, true, false, ◌&&◌,
  ◌||◌, not, Option, none, some, Text, is_some, is_empty, Bool-cases, inl, inr, leb, ltb, ◌==◌,
  if◌then◌else◌, arith, append-nil, append_assoc,
}
use mathlib.Core.Path.{subst}
use agent_pane.Execution.{ok, ◌>>=◌}
use agent_pane.Execution.Post.{Post, returns, fails, Post-if, Post-option, Post-bind}
use agent_pane.Read.{
  ReadConfig, TextReadOutput, LineReader, footer_reserve, new, append, finish, feed_all, or_default,
  read_text,
}
use agent_pane.Read.Window.{Lines, no_lines, Decoded, nothing, partial, last_of}
use agent_pane.Read.Feeding.{
  IsWithin, Stays, Reads, skips, takes, IsCut, Fed, feed-Post, last_of-suc,
}

-- A window of a text: the lines in front of it, its own, each decoded, and what is behind. It is cut off
-- in front of the line that is named next, or it reaches the end.
pub record IsWindow (from_utf8 : List ℕ → Option Text) (start limit : ℕ) (source : List ℕ)
    (output : TextReadOutput) : Type 0 where
  pub before : List ℕ
  pub body : List ℕ
  pub rest : List ℕ
  pub ended : Bool
  pub count : ℕ
  pub source_lem : source ≡ before ++ (body ++ rest)
  pub lines : Lines before (start - 1)
  pub decoded : Decoded from_utf8 ended body output.content count
  pub fits : count ≤ limit
  pub start_lem : output.start_line ≡ start
  pub end_lem : output.end_line ≡ last_of start count
  pub cut_lem :
      output.eof ≡ false
      → (ended ≡ true) × ((1 ≤ count) × (output.next_offset ≡ some (start + count)))
  pub eof_lem : output.eof ≡ true → rest ≡ []

module _ (from_utf8 : List ℕ → Option Text) (start limit : ℕ) (start_pos : 1 ≤ start)
    (limit_pos : 1 ≤ limit) where
  pub cut-IsWindow :
      (seen more : List ℕ) (output : TextReadOutput)
      → IsCut from_utf8 start limit start_pos limit_pos seen output
      → IsWindow from_utf8 start limit (seen ++ more) output
  cut-IsWindow seen more output c = record {
    before = c.before;
    body = c.body;
    rest = c.tail ++ more;
    ended = true;
    count = c.count;
    source_lem =
        ap (λ t. t ++ more) c.seen_lem
        ∙ (append_assoc c.before (c.body ++ c.tail) more
            ∙ ap (λ t. c.before ++ t) (append_assoc c.body c.tail more));
    lines = c.lines;
    decoded = c.decoded;
    fits = c.fits;
    start_lem = c.start_lem;
    end_lem = c.end_lem;
    cut_lem = λ e. (refl, (c.some_line, c.next_lem));
    eof_lem = λ e. absurd (clash output.eof c.eof_lem e);
  }
    where
      clash : (b : Bool) → b ≡ false → b ≡ true → ⊥
      clash b e f = cc

  unfoldable pub Ended : List ℕ → LineReader × Bool → Type 0
  Ended source (r, true) = (r.output.eof ≡ false) × IsWindow from_utf8 start limit source r.output
  Ended source (r, false) = Reads from_utf8 start limit start_pos limit_pos source r

  feed_all-Post :
      (max_scan_bytes index : ℕ) (bytes seen : List ℕ) (r : LineReader)
      → Reads from_utf8 start limit start_pos limit_pos seen r
      → Post (Ended (seen ++ bytes)) (feed_all from_utf8 max_scan_bytes index bytes r)
  unfolding feed_all Ended
  feed_all-Post max_scan_bytes index [] seen r h =
      returns (r, false)
        (subst (λ t. Reads from_utf8 start limit start_pos limit_pos t r) (sym (append-nil seen)) h)
  feed_all-Post max_scan_bytes index (byte ∷ bytes) seen r h =
      Post-if (Ended (seen ++ byte ∷ bytes)) (leb max_scan_bytes index) _ _ (λ b. fails _)
        (λ b.
          Post-bind (Fed from_utf8 start limit start_pos limit_pos seen byte)
            (Ended (seen ++ byte ∷ bytes)) _ _
            (feed-Post from_utf8 start limit start_pos limit_pos seen byte r h)
            (λ (more, done) f.
              further
                (λ more k.
                  feed_all-Post max_scan_bytes (index + 1) bytes (seen ++ byte ∷ []) more k)
                more done f))
    where
      further :
          ((more : LineReader)
            → Reads from_utf8 start limit start_pos limit_pos (seen ++ byte ∷ []) more
            → Post
                (Ended ((seen ++ byte ∷ []) ++ bytes))
                (feed_all from_utf8 max_scan_bytes (index + 1) bytes more))
          → (more : LineReader) (done : Bool)
          → Fed from_utf8 start limit start_pos limit_pos seen byte (more, done)
          → Post (Ended (seen ++ byte ∷ bytes)) (
              if done
              then ok (more, true)
              else feed_all from_utf8 max_scan_bytes (index + 1) bytes more)
      further loop more true f =
          returns (more, true) (f.eof_lem, cut-IsWindow seen (byte ∷ bytes) more.output f)
      further loop more false f =
          subst (λ t. Post (Ended t) (feed_all from_utf8 max_scan_bytes (index + 1) bytes more))
            (append_assoc seen (byte ∷ []) bytes) (loop more f)

  -- The window reaches the end.
  last_window :
      (source : List ℕ) (r : LineReader)
      (w : IsWithin from_utf8 start limit start_pos limit_pos source r)
      → Stays from_utf8 start limit start_pos limit_pos r
      → r.line ≡ []
      → IsWindow from_utf8 start limit source (record r.output { eof = true })
  last_window source r w s e = record {
    before = w.before;
    body = w.body;
    rest = [];
    ended = true;
    count = w.count;
    source_lem = w.seen_lem ∙ ap (λ t. w.before ++ (w.body ++ t)) e;
    lines = w.lines;
    decoded = w.decoded;
    fits = w.fits;
    start_lem = s.start_lem;
    end_lem = w.end_lem;
    cut_lem = λ e. absurd (cc);
    eof_lem = λ e. refl;
  }

  last_line :
      (source : List ℕ) (r : LineReader) (text : Text)
      (w : IsWithin from_utf8 start limit start_pos limit_pos source r)
      → Stays from_utf8 start limit start_pos limit_pos r
      → is_empty r.line ≡ false
      → from_utf8 r.line ≡ some text
      → IsWindow from_utf8 start limit source (record r.output {
        content = r.output.content ++ text;
        end_line = some r.number;
        eof = true;
      })
  last_line source r text w s e f = record {
    before = w.before;
    body = w.body ++ r.line;
    rest = [];
    ended = false;
    count = w.count + 1;
    source_lem = w.seen_lem ∙ ap (λ t. w.before ++ t) (sym (append-nil (w.body ++ r.line)));
    lines = w.lines;
    decoded = partial w.body r.line r.output.content text w.count w.decoded w.no_feed f;
    fits = w.room e;
    start_lem = s.start_lem;
    end_lem =
        ap some w.number_lem
        ∙ sym (last_of-suc from_utf8 start limit start_pos limit_pos start w.count);
    cut_lem = λ e. absurd (cc);
    eof_lem = λ e. refl;
  }

  -- The line is decoded, and put behind the content.
  Appended : LineReader → LineReader → Type 0
  Appended r last =
      (text : Text) × ((from_utf8 r.line ≡ some text)
        × (last.output
            ≡ record r.output { content = r.output.content ++ text; end_line = some r.number }))

  append-Post : (r : LineReader) → Post (Appended r) (append from_utf8 r)
  unfolding append Appended
  append-Post r =
      Post-option _ (from_utf8 r.line) _ _ (λ text f. returns _ (text, (f, refl))) (fails _)

  pub finish-IsWindow :
      (source : List ℕ) (r : LineReader)
      → Reads from_utf8 start limit start_pos limit_pos source r
      → Post (IsWindow from_utf8 start limit source) (finish from_utf8 (is_empty source) r)
  unfolding finish Appended
  finish-IsWindow source r (skips s k) =
      let a : (r.output.start_line == 1) ≡ false =
        ground (arith, s.start_lem, k.ahead, k.number_lem) in
      rw (k.line_lem, k.end_lem)
        (Post-if _ (not (is_empty source && r.output.start_line == 1)) _ _ (λ b. fails _)
          (λ b. absurd (ground (arith, a))))
  finish-IsWindow source r (takes s w) = by_line r.line refl
    where
      by_line :
          (line : List ℕ)
          → r.line ≡ line
          → Post (IsWindow from_utf8 start limit source) (finish from_utf8 (is_empty source) r)
      by_line [] e = rw e (
          Post-if _
            (not (is_some r.output.end_line) && not (is_empty source && r.output.start_line == 1)) _
            _ (λ b. fails _) (λ b. returns _ (last_window source r w s e)))
      by_line (c ∷ line) e =
          let n : is_empty r.line ≡ false = ap is_empty e in
          rw n (
            Post-bind (Appended r) _ (append from_utf8 r) _ (append-Post r) (λ last (text, (f, g)).
              Post-if _
                (not (is_some last.output.end_line)
                  && not (is_empty source && last.output.start_line == 1))
                _ _ (λ b. fails _)
                (λ b. returns _ (
                  subst (λ o. IsWindow from_utf8 start limit source (record o { eof = true }))
                    (sym g) (last_line source r text w s n f)))))

  -- In front of the first byte.
  started :
      (lines budget : ℕ)
      → lines ≡ limit
      → Reads from_utf8 start limit start_pos limit_pos [] (record {
        output = record {
          content = [];
          start_line = start;
          end_line = none;
          eof = false;
          truncation = none;
          next_offset = none;
        };
        limit = lines;
        budget = budget;
        number = 1;
        line = [];
        rendered_bytes = 0;
      })
  started lines budget e = elim (Bool-cases (ltb 1 start)) [
    | inl g ↦ skips stays (record {
      before = [];
      cur = [];
      count = 0;
      seen_lem = refl;
      lines = no_lines;
      no_feed = refl;
      number_lem = omega arith;
      ahead = ground arith;
      line_lem = refl;
      content_lem = refl;
      end_lem = refl;
    })
    | inr g ↦ takes stays (record {
      before = [];
      body = [];
      count = 0;
      seen_lem = refl;
      lines = subst (Lines []) (ground (arith, start_pos)) no_lines;
      decoded = nothing;
      no_feed = refl;
      number_lem = ground (arith, start_pos);
      end_lem = refl;
      fits = omega arith;
      room = λ h. absurd (cc);
    })
  ]
    where
      stays :
          {budget : ℕ}
          → Stays from_utf8 start limit start_pos limit_pos (record {
            output = record {
              content = [];
              start_line = start;
              end_line = none;
              eof = false;
              truncation = none;
              next_offset = none;
            };
            limit = lines;
            budget = budget;
            number = 1;
            line = [];
            rendered_bytes = 0;
          })
      stays = record { start_lem = refl; limit_lem = e; eof_lem = refl }

  pub read-IsWindow :
      (config : ReadConfig) (source : List ℕ) (r : LineReader)
      → Reads from_utf8 start limit start_pos limit_pos [] r
      → Post (IsWindow from_utf8 start limit source) (
          feed_all from_utf8 config.max_scan_bytes 0 source r >>= λ (last, done).
          if done then ok last.output else finish from_utf8 (is_empty source) last)
  read-IsWindow config source r h =
      Post-bind (Ended source) _ _ _ (feed_all-Post config.max_scan_bytes 0 source [] r h)
        (λ (last, done) k. by_done last done k)
    where
      by_done :
          (last : LineReader) (done : Bool)
          → Ended source (last, done)
          → Post
              (IsWindow from_utf8 start limit source)
              (if done then ok last.output else finish from_utf8 (is_empty source) last)
      by_done last true k = windowed last (unfold Ended in k)
        where
          windowed :
              (last : LineReader)
              → (last.output.eof ≡ false) × IsWindow from_utf8 start limit source last.output
              → Post (IsWindow from_utf8 start limit source) (ok last.output)
          windowed last (e, w) = returns last.output w
      by_done last false k = finish-IsWindow source last (unfold Ended in k)

-- What is asked for, where it is not given.
abbrev pub first_line : Option ℕ → ℕ
first_line offset = or_default offset 1

abbrev pub line_count : Option ℕ → ReadConfig → ℕ
line_count limit config = min (or_default limit config.max_lines) config.max_lines

pub new-Reads :
    (from_utf8 : List ℕ → Option Text) (start limit : ℕ) (config : ReadConfig)
    → Post
        (λ r.
          (s : 1 ≤ start) × ((l : 1 ≤ min limit config.max_lines) × Reads from_utf8 start
              (min limit config.max_lines)
              s
              l
              []
              r))
        (new start limit config)
unfolding new
new-Reads from_utf8 start limit config =
    Post-if _
      ((start == 0)
        || (limit == 0)
        || (config.max_lines == 0)
        || leb config.max_output_bytes footer_reserve)
      _ _ (λ b. fails _)
      (λ b.
        let s : 1 ≤ start = ground arith in
        let l : 1 ≤ min limit config.max_lines = ground arith in
        returns _ (
          s,
          (
            l,
            started from_utf8 start (min limit config.max_lines) s l (min limit config.max_lines) _
                refl,
          ),
        ))

-- `read_text` does not panic. What it returns is a window of the text that starts with the line asked
-- for, and has no more lines than asked for and than allowed, each one decoded whole: either it is cut
-- off behind at least one line, and names the line behind it as the next, or nothing is behind it.
pub read_text-IsWindow :
    (from_utf8 : List ℕ → Option Text) (source : List ℕ) (offset limit : Option ℕ)
    (config : ReadConfig)
    → Post
        (IsWindow from_utf8 (first_line offset) (line_count limit config) source)
        (read_text from_utf8 source offset limit config)
unfolding read_text
read_text-IsWindow from_utf8 source offset limit config =
    Post-bind _ _ _ _
      (new-Reads from_utf8 (first_line offset) (or_default limit config.max_lines) config)
      (λ r (s, (l, h)).
        read-IsWindow from_utf8 (first_line offset) (line_count limit config) s l config source r h)
