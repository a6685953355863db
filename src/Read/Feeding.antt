-- ===== src/Read/Feeding.antt =====
-- What the reader has taken of a text (`LineReader` of text.rs), byte by byte.
use agent_pane.Prelude.{
  ℕ, zero, suc, ◌+◌, ◌-◌, ◌≤◌, ◌<◌, List, [], ◌∷◌, ◌++◌, ◌≡◌, refl, sym, ap, ◌∙◌, Bool, true, false,
  Option, none, some, Text, is_some, is_empty, Bool-cases, inl, inr, leb, ltb, ◌==◌, if◌then◌else◌,
  arith, append-nil, append_assoc,
}
use mathlib.Core.Path.{subst}
use agent_pane.Prelude.Machine.{checked_add, checked_add-some}
use agent_pane.Execution.{ok, ◌>>=◌}
use agent_pane.Execution.Post.{Post, returns, fails, Post-if, Post-option, Post-bind}
use agent_pane.Execution.Files.{contains-append, contains}
use agent_pane.Read.{
  TextReadOutput, LineReader, Truncation, line_limit, byte_limit, is_full, stopped, next_line,
  append, push_byte, feed,
}
use agent_pane.Read.Window.{Lines, one_more, Decoded, nothing, whole, last_of}

is_full-Post :
    (start n limit : ℕ)
    → 1 ≤ limit
    → Post (λ full. full ≡ leb limit n) (is_full (last_of start n) start limit)
unfolding is_full
is_full-Post start zero limit h = returns false (ground arith)
is_full-Post start (suc n) limit h =
    let a : ltb (start + n) start ≡ false = ground arith in
    let b : start + n - start + 1 ≡ suc n = omega arith in
    rw (a, b) (returns (leb limit (suc n)) refl)

module _ (from_utf8 : List ℕ → Option Text) (start limit : ℕ) (start_pos : 1 ≤ start)
    (limit_pos : 1 ≤ limit) where
  -- In front of the window: whole lines, and the bytes of one more.
  pub record IsSkipping (seen : List ℕ) (r : LineReader) : Type 0 where
    pub before : List ℕ
    pub cur : List ℕ
    pub count : ℕ
    pub seen_lem : seen ≡ before ++ cur
    pub lines : Lines before count
    pub no_feed : contains 10 cur ≡ false
    pub number_lem : r.number ≡ count + 1
    pub ahead : r.number < start
    pub line_lem : r.line ≡ []
    pub content_lem : r.output.content ≡ []
    pub end_lem : r.output.end_line ≡ none

  -- Within: the lines in front, those of the window, and the bytes of one more.
  pub record IsWithin (seen : List ℕ) (r : LineReader) : Type 0 where
    pub before : List ℕ
    pub body : List ℕ
    pub count : ℕ
    pub seen_lem : seen ≡ before ++ (body ++ r.line)
    pub lines : Lines before (start - 1)
    pub decoded : Decoded from_utf8 true body r.output.content count
    pub no_feed : contains 10 r.line ≡ false
    pub number_lem : r.number ≡ start + count
    pub end_lem : r.output.end_line ≡ last_of start count
    pub fits : count ≤ limit
    pub room : is_empty r.line ≡ false → count + 1 ≤ limit

  pub record Stays (r : LineReader) : Type 0 where
    pub start_lem : r.output.start_line ≡ start
    pub limit_lem : r.limit ≡ limit
    pub eof_lem : r.output.eof ≡ false

  pub data Reads (seen : List ℕ) (r : LineReader) : Type 0 where
    skips : Stays r → IsSkipping seen r → Reads seen r
    takes : Stays r → IsWithin seen r → Reads seen r

  -- A window that is cut off: behind it, there are bytes that were seen, and maybe more.
  pub record IsCut (seen : List ℕ) (output : TextReadOutput) : Type 0 where
    pub before : List ℕ
    pub body : List ℕ
    pub tail : List ℕ
    pub count : ℕ
    pub seen_lem : seen ≡ before ++ (body ++ tail)
    pub lines : Lines before (start - 1)
    pub decoded : Decoded from_utf8 true body output.content count
    pub end_lem : output.end_line ≡ last_of start count
    pub next_lem : output.next_offset ≡ some (start + count)
    pub fits : count ≤ limit
    pub some_line : 1 ≤ count
    pub start_lem : output.start_line ≡ start
    pub eof_lem : output.eof ≡ false

  abbrev pub Fed : List ℕ → ℕ → LineReader × Bool → Type 0
  Fed seen byte (r, true) = IsCut seen r.output
  Fed seen byte (r, false) = Reads (seen ++ byte ∷ []) r

  pub pos_of :
      (count : ℕ) (end : Option ℕ) → end ≡ last_of start count → is_some end ≡ true → 1 ≤ count
  pos_of zero end e h = absurd (cc)
  pos_of (suc n) end e h = omega arith

  cut :
      (seen : List ℕ) (t : Truncation) (r : LineReader) (line : List ℕ)
      → Stays r
      → (w : IsWithin seen r) → 1 ≤ w.count
      → IsCut seen (stopped t (record r { line = line })).output
  cut seen t r line s w h = record {
    before = w.before;
    body = w.body;
    tail = r.line;
    count = w.count;
    seen_lem = w.seen_lem;
    lines = w.lines;
    decoded = w.decoded;
    end_lem = w.end_lem;
    next_lem = ap some w.number_lem;
    fits = w.fits;
    some_line = h;
    start_lem = s.start_lem;
    eof_lem = s.eof_lem;
  }

  next_line-Post :
      (r : LineReader) (P : LineReader × Bool → Type 0)
      → ((n : ℕ) → n ≡ r.number + 1 → P (record r { number = n }, false))
      → Post P (next_line r)
  unfolding next_line
  next_line-Post r P h =
      Post-option P (checked_add r.number 1) _ _
        (λ n e. returns _ (h n (checked_add-some r.number 1 n e))) (fails _)

  -- A line in front of the window ends: the next one is in front of it, or its first.
  skip_feed :
      (seen : List ℕ) (r : LineReader) (n : ℕ)
      → Stays r
      → IsSkipping seen r
      → n ≡ r.number + 1
      → Reads (seen ++ 10 ∷ []) (record r { number = n })
  skip_feed seen r n s k e =
      let f : seen ++ 10 ∷ [] ≡ k.before ++ (k.cur ++ 10 ∷ []) =
        ap (λ t. t ++ 10 ∷ []) k.seen_lem ∙ append_assoc k.before k.cur (10 ∷ []) in
      let l : Lines (seen ++ 10 ∷ []) (k.count + 1) =
        subst (λ t. Lines t (k.count + 1)) (sym f)
          (one_more k.before k.cur k.count k.lines k.no_feed) in
      let s2 : Stays (record r { number = n }) = record {
        start_lem = s.start_lem;
        limit_lem = s.limit_lem;
        eof_lem = s.eof_lem;
      } in
      elim (Bool-cases (ltb n start)) [
        | inl g ↦ skips s2 (record {
          before = seen ++ 10 ∷ [];
          cur = [];
          count = k.count + 1;
          seen_lem = sym (append-nil (seen ++ 10 ∷ []));
          lines = l;
          no_feed = refl;
          number_lem = omega (arith, e, k.number_lem);
          ahead = ground arith;
          line_lem = k.line_lem;
          content_lem = k.content_lem;
          end_lem = k.end_lem;
        })
        | inr g ↦
            let c : k.count + 1 ≡ start - 1 = ground (arith, e, k.number_lem, k.ahead) in
            takes s2 (record {
              before = seen ++ 10 ∷ [];
              body = [];
              count = 0;
              seen_lem =
                  sym (ap (λ t. (seen ++ 10 ∷ []) ++ t) k.line_lem ∙ append-nil (seen ++ 10 ∷ []));
              lines = subst (Lines (seen ++ 10 ∷ [])) c l;
              decoded = subst (λ t. Decoded from_utf8 true [] t 0) (sym k.content_lem) nothing;
              no_feed = ap (contains 10) k.line_lem;
              number_lem = ground (arith, e, k.number_lem, k.ahead);
              end_lem = k.end_lem;
              fits = omega arith;
              room = λ h. omega (arith, limit_pos);
            })
      ]

  -- Another byte of a line in front of the window.
  skip_byte :
      (seen : List ℕ) (byte : ℕ) (r : LineReader)
      → Stays r
      → IsSkipping seen r
      → Post (Fed seen byte) (if byte == 10 then next_line r else ok (r, false))
  skip_byte seen byte r s k =
      Post-if (Fed seen byte) (byte == 10) _ _
        (λ e. next_line-Post r (Fed seen byte) (λ n f.
          subst (λ b. Reads (seen ++ b ∷ []) (record r { number = n })) (ground arith)
            (skip_feed seen r n s k f)))
        (λ e.
          returns (r, false)
            (skips s (record {
              before = k.before;
              cur = k.cur ++ byte ∷ [];
              count = k.count;
              seen_lem =
                  ap (λ t. t ++ byte ∷ []) k.seen_lem ∙ append_assoc k.before k.cur (byte ∷ []);
              lines = k.lines;
              no_feed = contains-append 10 k.cur (byte ∷ []) k.no_feed (ground arith);
              number_lem = k.number_lem;
              ahead = k.ahead;
              line_lem = k.line_lem;
              content_lem = k.content_lem;
              end_lem = k.end_lem;
            })))

  pub seam :
      (seen before body line more : List ℕ)
      → seen ≡ before ++ (body ++ line)
      → seen ++ more ≡ before ++ (body ++ (line ++ more))
  seam seen before body line more e =
      ap (λ t. t ++ more) e
      ∙ (append_assoc before (body ++ line) more
          ∙ ap (λ t. before ++ t) (append_assoc body line more))

  pub last_of-suc : (start n : ℕ) → last_of start (n + 1) ≡ some (start + n)
  last_of-suc start n = let e : n + 1 ≡ suc n = omega arith in rw e

  -- A line of the window ends, and is decoded.
  end_line :
      (seen : List ℕ) (r : LineReader)
      → Stays r
      → (w : IsWithin seen r) → w.count + 1 ≤ limit
      → Post
          (Fed seen 10)
          (append from_utf8 (record r { line = r.line ++ 10 ∷ [] }) >>= λ more. next_line more)
  unfolding append
  end_line seen r s w h = option (from_utf8 (r.line ++ 10 ∷ [])) refl
    where
      option :
          (o : Option Text)
          → from_utf8 (r.line ++ 10 ∷ []) ≡ o
          → Post
              (Fed seen 10)
              (append from_utf8 (record r { line = r.line ++ 10 ∷ [] }) >>= λ more. next_line more)
      option none e = rw e (fails _)
      option (some text) e = rw e (
          next_line-Post _ (Fed seen 10) (λ n f.
            takes (record { start_lem = s.start_lem; limit_lem = s.limit_lem; eof_lem = s.eof_lem })
              (record {
                before = w.before;
                body = w.body ++ (r.line ++ 10 ∷ []);
                count = w.count + 1;
                seen_lem =
                    seam seen w.before w.body r.line (10 ∷ []) w.seen_lem
                    ∙ ap (λ t. w.before ++ t) (sym (append-nil (w.body ++ (r.line ++ 10 ∷ []))));
                lines = w.lines;
                decoded = whole w.body r.line r.output.content text w.count w.decoded w.no_feed e;
                no_feed = refl;
                number_lem = omega (arith, f, w.number_lem);
                end_lem = ap some w.number_lem ∙ sym (last_of-suc start w.count);
                fits = h;
                room = λ h. absurd (cc);
              })))

  -- A byte of a line of the window.
  push_byte-Post :
      (seen : List ℕ) (byte : ℕ) (r : LineReader)
      → Stays r
      → (w : IsWithin seen r) → w.count + 1 ≤ limit
      → Post (Fed seen byte) (push_byte from_utf8 byte r)
  unfolding push_byte
  push_byte-Post seen byte r s w h =
      Post-if (Fed seen byte) (ltb r.budget _) _ _
        (λ a.
          Post-if (Fed seen byte) (is_some r.output.end_line) _ _
            (λ b. returns _ (
              cut seen byte_limit r (r.line ++ byte ∷ []) s w
                (pos_of w.count r.output.end_line w.end_lem b)))
            (λ b. fails _))
        (λ a.
          Post-if (Fed seen byte) (byte == 10) _ _
            (λ b.
              let e : 10 ≡ byte = ground arith in
              subst
                (λ c. Post (Fed seen c) (
                  append from_utf8 (record r { line = r.line ++ c ∷ [] }) >>= λ more.
                  next_line more))
                e (end_line seen r s w h))
            (λ b. returns _ (
              takes
                (record { start_lem = s.start_lem; limit_lem = s.limit_lem; eof_lem = s.eof_lem })
                (record {
                  before = w.before;
                  body = w.body;
                  count = w.count;
                  seen_lem = seam seen w.before w.body r.line (byte ∷ []) w.seen_lem;
                  lines = w.lines;
                  decoded = w.decoded;
                  no_feed = contains-append 10 r.line (byte ∷ []) w.no_feed (ground arith);
                  number_lem = w.number_lem;
                  end_lem = w.end_lem;
                  fits = w.fits;
                  room = λ _. h;
                }))))

  pub feed-Post :
      (seen : List ℕ) (byte : ℕ) (r : LineReader)
      → Reads seen r
      → Post (Fed seen byte) (feed from_utf8 byte r)
  unfolding feed
  feed-Post seen byte r (skips s k) =
      let a : leb r.output.start_line r.number ≡ false = ground (arith, s.start_lem, k.ahead) in
      let none_full : Post (λ full. full ≡ false)
          (is_full r.output.end_line r.output.start_line r.limit) =
        rw k.end_lem (unfold is_full in returns false refl) in
      rw a (
        Post-bind (λ full. full ≡ false) (Fed seen byte)
          (is_full r.output.end_line r.output.start_line r.limit) _ none_full
          (λ full e.
            Post-if (Fed seen byte) full _ _ (λ f. absurd (cc))
              (λ f.
                Post-if (Fed seen byte) (byte == 0) _ _ (λ b. fails _)
                  (λ b. skip_byte seen byte r s k))))
  feed-Post seen byte r (takes s w) =
      let a : leb r.output.start_line r.number ≡ true = ground (arith, s.start_lem, w.number_lem) in
      let full_lem : Post (λ full. full ≡ leb limit w.count)
          (is_full r.output.end_line r.output.start_line r.limit) =
        rw (w.end_lem, s.start_lem, s.limit_lem) (is_full-Post start w.count limit limit_pos) in
      rw a (
        Post-bind (λ full. full ≡ leb limit w.count) (Fed seen byte)
          (is_full r.output.end_line r.output.start_line r.limit) _ full_lem
          (λ full e.
            Post-if (Fed seen byte) full _ _
              (λ f. returns _ (cut seen line_limit r r.line s w (ground (arith, limit_pos))))
              (λ f.
                Post-if (Fed seen byte) (byte == 0) _ _ (λ b. fails _)
                  (λ b. push_byte-Post seen byte r s w (ground arith)))))
