-- ===== src/ApplyPatch/Parser/Modes.antt =====
-- The modes of the parser, and the last hunk in each.
use agent_pane.Prelude.{
  ℕ, List, [], ◌∷◌, ◌++◌, ◌≡◌, refl, true, false, Option, none, some, Text, trim, trim_end, is_some,
  on_some, arith,
}
use agent_pane.ApplyPatch.Hunk.{Hunk, add_file, delete_file, update_file, UpdateFileChunk}
use agent_pane.ApplyPatch.Parser.{
  ensure_hunk, ensure_update_not_empty, push_hunk, handle_marker, set_environment, handle_header,
  update_content, update_marker, update_lines, update_hunk, add_line, set_last, or_else,
  in_add_file, in_mode,
}
use agent_pane.ApplyPatch.Parser.Error.{ParseError, Parsed, ok, err, ◌>>=◌}
use agent_pane.ApplyPatch.Parser.State.{
  Mode, not_started, started_patch, ended_patch, Parser, last?, map_last,
}
use agent_pane.ApplyPatch.Parser.Post.{
  Post, returns, fails, Post-if, Post-option, Post-bind, post_rules,
}

-- The last hunk is of the kind that the mode says.
abbrev pub FitsMode : Mode → Option Hunk → Type 0
FitsMode Mode.add_file (some (add_file path contents)) = Unit
FitsMode Mode.add_file _ = ⊥
FitsMode (Mode.update_file n) (some (update_file path move_path chunks)) = Unit
FitsMode (Mode.update_file n) _ = ⊥
FitsMode _ _ = Unit

abbrev pub IsValid : Parser → Type 0
IsValid p = FitsMode p.mode (last? p.hunks)

abbrev pub Anything {ℓ} : {A : Type ℓ} → A → Type 0
Anything a = Unit

abbrev pub IsTaken : Option Parser → Type 0
IsTaken none = Unit
IsTaken (some p) = IsValid p

last?-append {ℓ} : {A : Type ℓ} (xs : List A) (x : A) → last? (xs ++ x ∷ []) ≡ some x
unfolding last?
last?-append [] x = refl
last?-append (y ∷ []) x = refl
last?-append (y ∷ z ∷ xs) x = last?-append (z ∷ xs) x

last?-map_last {ℓ} :
    {A : Type ℓ} (f : A → A) (xs : List A) (x : A)
    → last? xs ≡ some x
    → last? (map_last f xs) ≡ some (f x)
unfolding last? map_last
last?-map_last f [] x h = cc
last?-map_last f (y ∷ []) x h = ground arith
last?-map_last f (y ∷ z ∷ []) x h = ground arith
last?-map_last f (y ∷ z ∷ w ∷ xs) x h = last?-map_last f (z ∷ w ∷ xs) x h

pub ensure_hunk-Post :
    (line : Text) (mode : Mode) (n : ℕ) (h : Option Hunk)
    → Post Anything (ensure_hunk line mode n h)
unfolding ensure_hunk
ensure_hunk-Post line mode n none = returns tt tt
ensure_hunk-Post line mode n (some (add_file path contents)) = returns tt tt
ensure_hunk-Post line mode n (some (delete_file path)) = returns tt tt
ensure_hunk-Post line mode n (some (update_file path move_path chunks)) =
    Post-if Anything _ _ _
      (Post-option Anything _ _ _ (λ n. fails _) (Post-if Anything _ _ _ (fails _) (returns tt tt)))
      (Post-if Anything _ _ _ (fails _) (returns tt tt))

pub push_hunk-IsValid :
    (h : Hunk) (mode : Mode) (p : Parser) → FitsMode mode (some h) → IsValid (push_hunk h mode p)
unfolding push_hunk
push_hunk-IsValid h mode p fits = rw (last?-append p.hunks h) fits

-- The header behind the checks of the update before it.
pub ensured :
    (line : Text) (p q : Parser)
    → IsValid q
    → Post IsTaken (ensure_update_not_empty line p >>= λ u. ok (some q))
unfolding ensure_update_not_empty
ensured line p q valid =
    Post-bind Anything IsTaken _ _ (ensure_hunk-Post line p.mode p.line_number (last? p.hunks))
      (λ u h. returns (some q) valid)

pub handle_marker-Post : (line : Text) (p : Parser) → Post IsTaken (handle_marker line p)
unfolding handle_marker
handle_marker-Post line p =
    Post-if IsTaken _ _ _ (ensured line p (record p { mode = ended_patch }) tt) (
      Post-option IsTaken _ _ _ (λ path. pushed (add_file path []) Mode.add_file tt)
        (Post-option IsTaken _ _ _ (λ path. pushed (delete_file path) Mode.delete_file tt)
          (Post-option IsTaken _ _ _
            (λ path. pushed (update_file path none []) (Mode.update_file p.line_number) tt)
            (returns none tt))))
  where
    pushed :
        (h : Hunk) (mode : Mode)
        → FitsMode mode (some h)
        → Post IsTaken (ensure_update_not_empty line p >>= λ u. ok (some (push_hunk h mode p)))
    pushed h mode fits = ensured line p (push_hunk h mode p) (push_hunk-IsValid h mode p fits)

pub handle_header-Post :
    (line : Text) (p : Parser) → IsValid p → Post IsTaken (handle_header line p)
unfolding handle_header set_environment
handle_header-Post line p valid = search (post_rules, handle_marker-Post) depth 9

pub update_content-Post :
    (line : Text) (n : ℕ) (chunks : List UpdateFileChunk)
    → Post Anything (update_content line n chunks)
unfolding update_content
update_content-Post line n chunks = search post_rules depth 12

pub update_marker-Post :
    (line update_line : Text) (n : ℕ) (chunks : List UpdateFileChunk)
    → Post Anything (update_marker line update_line n chunks)
unfolding update_marker
update_marker-Post line update_line n chunks = search (post_rules, update_content-Post) depth 12

pub with_move_path :
    (move_path : Option Text) (m : Parsed (List UpdateFileChunk))
    → Post Anything m
    → Post {A = Option Text × List UpdateFileChunk} Anything (m >>= λ cs. ok (move_path, cs))
with_move_path move_path m h = Post-bind Anything Anything m _ h (λ cs t. returns _ tt)

pub update_lines-Post :
    (line update_line : Text) (n : ℕ) (move_path : Option Text) (chunks : List UpdateFileChunk)
    → Post Anything (update_lines line update_line n move_path chunks)
unfolding update_lines
update_lines-Post line update_line n move_path chunks =
    search (post_rules, with_move_path, update_marker-Post) depth 12

abbrev pub IsUpdate : Hunk → Type 0
IsUpdate (update_file path move_path chunks) = Unit
IsUpdate _ = ⊥

pub update_hunk-Post :
    (line update_line : Text) (n m : ℕ) (h : Option Hunk)
    → FitsMode (Mode.update_file m) h
    → Post IsUpdate (update_hunk line update_line n h)
unfolding update_hunk
update_hunk-Post line update_line n m (some (update_file path move_path chunks)) fits =
    Post-bind Anything IsUpdate _ _ (update_lines-Post line update_line n move_path chunks)
      (λ r h. returns _ tt)
update_hunk-Post line update_line n m (some (add_file path contents)) fits = absurd fits
update_hunk-Post line update_line n m (some (delete_file path)) fits = absurd fits
update_hunk-Post line update_line n m none fits = absurd fits

-- The last hunk is put back, changed, where there was one.
pub set_last-IsValid :
    (h : Hunk) (p : Parser) (o : Option Hunk)
    → last? p.hunks ≡ o
    → FitsMode p.mode (some h)
    → is_some o ≡ true
    → IsValid (set_last h p)
set_last-IsValid h p none e fits has = absurd_of has
  where
    absurd_of : false ≡ true → IsValid (set_last h p)
    absurd_of e = cc
set_last-IsValid h p (some g) e fits has = rw (last?-map_last (λ _. h) p.hunks g e) fits

pub update_is_some : (n : ℕ) (o : Option Hunk) → FitsMode (Mode.update_file n) o → is_some o ≡ true
update_is_some n (some h) fits = refl
update_is_some n none fits = absurd fits

pub update_fits : (n : ℕ) (h : Hunk) → IsUpdate h → FitsMode (Mode.update_file n) (some h)
update_fits n (update_file path move_path chunks) u = tt
update_fits n (add_file path contents) u = absurd u
update_fits n (delete_file path) u = absurd u

pub put_update :
    (n : ℕ) (p : Parser) (h : Hunk)
    → p.mode ≡ Mode.update_file n
    → IsValid p
    → IsUpdate h
    → IsValid (set_last h p)
put_update n p h e valid u =
    set_last-IsValid h p (last? p.hunks) refl (rw e (update_fits n h u))
      (update_is_some n (last? p.hunks) (rw e at valid))

pub add_line-Post :
    (content : Text) (p : Parser) (o : Option Hunk) (e : ParseError)
    → p.mode ≡ Mode.add_file
    → last? p.hunks ≡ o
    → Post IsValid (on_some (add_line content o) (λ h. ok (set_last h p)) (err e))
unfolding add_line
add_line-Post content p none e mode h = fails e
add_line-Post content p (some (delete_file path)) e mode h = fails e
add_line-Post content p (some (update_file path move_path chunks)) e mode h = fails e
add_line-Post content p (some (add_file path contents)) e mode h =
    returns _ (set_last-IsValid _ p (some (add_file path contents)) h (rw mode tt) refl)

pub in_add_file-Post :
    (line : Text) (p : Parser) → p.mode ≡ Mode.add_file → Post IsValid (in_add_file line p)
unfolding in_add_file
in_add_file-Post line p mode =
    Post-option IsValid _ _ _ (λ content. add_line-Post content p (last? p.hunks) _ mode refl)
      (fails _)

pub or_else-Post :
    (taken : Option Parser) (rest : Parsed Parser)
    → IsTaken taken
    → Post IsValid rest
    → Post IsValid (or_else taken rest)
or_else-Post none rest h k = k
or_else-Post (some p) rest h k = returns p h

pub in_mode-Post :
    (mode : Mode) (line : Text) (p : Parser)
    → p.mode ≡ mode
    → IsValid p
    → Post IsValid (in_mode mode line p)
unfolding in_mode
in_mode-Post not_started line p e valid = Post-if IsValid _ _ _ (returns _ tt) (fails _)
in_mode-Post started_patch line p e valid =
    Post-bind IsTaken IsValid _ _ (handle_header-Post (trim line) p valid)
      (λ taken h. or_else-Post taken _ h (fails _))
in_mode-Post Mode.delete_file line p e valid =
    Post-bind IsTaken IsValid _ _ (handle_header-Post (trim line) p valid)
      (λ taken h. or_else-Post taken _ h (fails _))
in_mode-Post Mode.add_file line p e valid =
    Post-bind IsTaken IsValid _ _ (handle_header-Post (trim line) p valid)
      (λ taken h. or_else-Post taken _ h (in_add_file-Post line p e))
in_mode-Post (Mode.update_file n) line p e valid =
    Post-bind IsTaken IsValid _ _ (handle_header-Post (trim_end line) p valid) (λ taken h.
      or_else-Post taken _ h (
        Post-bind IsUpdate IsValid _ _
          (update_hunk-Post line (trim_end line) p.line_number n (last? p.hunks) (rw e at valid))
          (λ h u. returns (set_last h p) (put_update n p h e valid u))))
in_mode-Post ended_patch line p e valid = Post-if IsValid _ _ _ (returns p valid) (fails _)
