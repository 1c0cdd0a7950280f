-- ===== src/Sh/Parse/Sound/Loops.antt =====
-- sh.c, parseredirs and the loops of parseexec and parseline.
use jyyos.Prelude.{ℕ, zero, suc, ◌+◌, ◌<◌, ◌≤◌, ◌≡◌, refl, ltb, ltb→lt, ◌==◌, ==_iff, arith}
use jyyos.Prelude.{
  subst, sym, inl, inr, Option, none, some, List, [], ◌∷◌, ◌++◌, length, length-append,
}
use jyyos.Prelude.CText.{Bytes}
use jyyos.Sh.{Word, Cmd, exec, back, max_args, gettoken, peek}
use jyyos.Sh.Lex.{HasNoNul, IsWord, Lexed-moves, gettoken-Lexed, peek-Peeked}
use jyyos.Sh.Parse.{
  ok, ◌>>=◌, State, Redir, zalloc, redir_of, parse_redirs, parse_args, parse_backs, cons_some,
}
use jyyos.Sh.Parse.{size_redir, size_exec, size_back, parse_simple}
use jyyos.Sh.Parse.Ensures.{
  Ensures, returns, panics, Ensures-bind, Ensures-map, Ensures-if, Ensures-assert,
}
use jyyos.Sh.Parse.Sound.{
  All, All-append, IsStandard, IsRedir, Holds, size_of, redirs_size, size_of-wrap, wrap-Holds,
  Moves, Builds,
}

pub record Redirects (text : Bytes) (s : State) (r : List Redir × State) : Type 0 where
  pub moves : Moves text s r.1 (redirs_size r.0)
  pub files : All (IsRedir (IsWord text)) r.0

pub zalloc-Ensures :
    (size : ℕ) (s : State)
    → Ensures (λ s'. (s'.pos ≡ s.pos) × (s'.used ≡ s.used + size)) (zalloc size s)
unfolding zalloc
zalloc-Ensures size s =
    Ensures-if (ltb (s.used + size) 4096) (λ _. returns (refl, refl)) (λ _. panics)

-- One redirection or none, whose file is the given word.
abbrev OneRedir : Bytes → Word → State → Option Redir × State → Type 0
OneRedir text file s (o, s') =
    (s'.pos ≡ s.pos)
    × (s'.used ≡ s.used + redirs_size (cons_some text o []))
    × All (λ d. (d.file ≡ file) × IsStandard d.fd) (cons_some text o [])

redir_of-Ensures :
    (text : Bytes) (kind : ℕ) (file : Word) (s : State)
    → Ensures (OneRedir text file s) (redir_of text kind file s)
unfolding redir_of
redir_of-Ensures text kind file s =
    Ensures-if (kind == b'<') (λ _. one _ _ (inl refl))
      (λ _.
        Ensures-if (kind == b'>') (λ _. one _ _ (inr refl))
          (λ _.
            Ensures-if (kind == b'+') (λ _. one _ _ (inr refl))
              (λ _. returns (refl, omega arith, tt))))
  where
    one :
        (mode fd : ℕ)
        → IsStandard fd
        → Ensures (OneRedir text file s) (
            zalloc size_redir s >>= λ s'.
            ok (some (record { file = file; mode = mode; fd = fd }), s'))
    one mode fd std =
        Ensures-bind (zalloc-Ensures size_redir s)
          λ s' (a, b). returns (a, omega arith, ((refl, std), tt))

Redirects-more :
    {text : Bytes} (s s₁ s₂ : State) (file : Word) (o : Option Redir) (rs : List Redir)
    → s.pos ≤ s₁.pos
    → s₁.used ≡ s.used + redirs_size (cons_some text o [])
    → All (λ d. (d.file ≡ file) × IsStandard d.fd) (cons_some text o [])
    → IsWord text file
    → Redirects text s₁ (rs, s₂)
    → Redirects text s (cons_some text o rs, s₂)
Redirects-more s s₁ s₂ file none rs le used same w rest = record {
  moves = record {
    forward = omega (arith, rest.moves.forward);
    within = rest.moves.within;
    taken = omega (arith, rest.moves.taken);
  };
  files = rest.files;
}
Redirects-more {text} s s₁ s₂ file (some d) rs le used ((same, std), _) w rest = record {
  moves = record {
    forward = omega (arith, rest.moves.forward);
    within = rest.moves.within;
    taken = omega (arith, rest.moves.taken);
  };
  files = ((subst (IsWord text) (sym same) w, std), rest.files);
}

module _ (text : Bytes) (live : HasNoNul text) where
  pub parse_redirs-Ensures :
      (fuel : ℕ) (s : State)
      → s.pos ≤ length text
      → length text < fuel + s.pos
      → Ensures (Redirects text s) (parse_redirs text fuel s)
  unfolding parse_redirs
  parse_redirs-Ensures zero s h enough = absurd (omega arith)
  parse_redirs-Ensures (suc fuel) s h enough =
      let p = (peek text s.pos (b'<' ∷ b'>' ∷ [])).0 in
      let op = gettoken text p in
      let file = gettoken text op.next in
      let k = peek-Peeked text s.pos (b'<' ∷ b'>' ∷ []) h in
      let op_lexed = gettoken-Lexed text p live k.within in
      let file_lexed = gettoken-Lexed text op.next live op_lexed.next_le in
      Ensures-if (peek text s.pos (b'<' ∷ b'>' ∷ [])).1
        (λ seen. Ensures-assert (file.kind == b'a') λ is_word.
          let word : file.kind ≡ b'a' = (==_iff _ _).0 is_word in
          let more : file.word.start < file.next = file_lexed.progress (omega arith) in
          Ensures-bind (redir_of-Ensures text op.kind file.word (record s { pos = file.next }))
            λ (o, s₁) (pos, used, same).
              Ensures-bind
                (parse_redirs-Ensures fuel s₁ (omega (arith, file_lexed.next_le)) (
                  omega (
                    arith, k.forward, op_lexed.start_le, op_lexed.ordered, op_lexed.stop_le,
                    file_lexed.start_le,
                  )))
                λ (rs, s₂) rest. returns (
                  Redirects-more s s₁ s₂ file.word o rs
                    (omega (
                      arith, k.forward, op_lexed.start_le, op_lexed.ordered, op_lexed.stop_le,
                      file_lexed.start_le,
                    ))
                    used same (file_lexed.word word) rest))
        (λ _. returns (record {
          moves = record { forward = k.forward; within = k.within; taken = omega arith };
          files = tt;
        }))

  -- What the argument loop has read: its words so far, the redirections, and the state.
  pub record Collects (s : State) (taken : ℕ) (r : List Word × List Redir × State) : Type 0 where
    pub forward : s.pos ≤ r.2.pos
    pub within : r.2.pos ≤ length text
    pub used : r.2.used + taken ≡ s.used + redirs_size r.1
    pub words : All (IsWord text) r.0
    pub few : length r.0 < max_args
    pub files : All (IsRedir (IsWord text)) r.1

  parse_args-Ensures :
      (fuel : ℕ) (args : List Word) (rs : List Redir) (s : State)
      → s.pos ≤ length text
      → length text < fuel + s.pos
      → All (IsWord text) args
      → length args < max_args
      → All (IsRedir (IsWord text)) rs
      → Ensures (Collects s (redirs_size rs)) (parse_args text fuel args rs s)
  unfolding parse_args
  parse_args-Ensures zero args rs s h enough words few files = absurd (omega arith)
  parse_args-Ensures (suc fuel) args rs s h enough words few files =
      let toks : Bytes = b'|' ∷ b')' ∷ b'&' ∷ b';' ∷ [] in
      let p = (peek text s.pos toks).0 in
      let t = gettoken text p in
      let k = peek-Peeked text s.pos toks h in
      let lexed = gettoken-Lexed text p live k.within in
      Ensures-if (peek text s.pos toks).1
        (λ seen. returns (record {
          forward = k.forward;
          within = k.within;
          used = omega arith;
          words = words;
          few = few;
          files = files;
        }))
        (λ _.
          Ensures-if (t.kind == 0)
            (λ over. returns (record {
              forward = omega (arith, k.forward, lexed.start_le, lexed.ordered, lexed.stop_le);
              within = lexed.next_le;
              used = omega arith;
              words = words;
              few = few;
              files = files;
            }))
            (λ _. Ensures-assert (t.kind == b'a') λ is_word.
              Ensures-assert (ltb (length args + 1) max_args) λ room.
                let word : t.kind ≡ b'a' = (==_iff _ _).0 is_word in
                let more : t.word.start < t.next = lexed.progress (omega arith) in
                Ensures-bind
                  (parse_redirs-Ensures (length text + 1) (record s { pos = t.next }) lexed.next_le
                    (omega arith))
                  λ (ds, s₁) read.
                    Ensures-map
                      (parse_args-Ensures fuel (args ++ t.word ∷ []) (rs ++ ds) s₁ read.moves.within
                        (omega (arith, k.forward, lexed.start_le, read.moves.forward))
                        (All-append (IsWord text) args (t.word ∷ []) words (lexed.word word, tt))
                        (omega (
                          arith,
                          length-append args (t.word ∷ []),
                          ltb→lt (length args + 1) max_args room,
                        ))
                        (All-append (IsRedir (IsWord text)) rs ds files read.files))
                      λ r done. record {
                        forward =
                            omega
                              (arith, k.forward, lexed.start_le, done.forward, read.moves.forward);
                        within = done.within;
                        used = omega (arith, done.used, read.moves.taken, length-append rs ds);
                        words = done.words;
                        few = done.few;
                        files = done.files;
                      }))

  pub parse_backs-Ensures :
      (fuel : ℕ) (cmd : Cmd) (s : State)
      → s.pos ≤ length text
      → length text < fuel + s.pos
      → Holds (IsWord text) cmd
      → Ensures
          (λ r.
            (s.pos ≤ r.1.pos)
            × (r.1.pos ≤ length text)
            × (r.1.used + size_of cmd ≡ s.used + size_of r.0)
            × Holds (IsWord text) r.0)
          (parse_backs text fuel cmd s)
  unfolding parse_backs
  parse_backs-Ensures zero cmd s h enough words = absurd (omega arith)
  parse_backs-Ensures (suc fuel) cmd s h enough words =
      let p = (peek text s.pos (b'&' ∷ [])).0 in
      let t = gettoken text p in
      let k = peek-Peeked text s.pos (b'&' ∷ []) h in
      let lexed = gettoken-Lexed text p live k.within in
      Ensures-if (peek text s.pos (b'&' ∷ [])).1
        (λ seen.
          let more = Lexed-moves t lexed (k.sees seen).0 in
          Ensures-bind (zalloc-Ensures size_back (record s { pos = t.next })) λ s₁ (pos, used).
            Ensures-map
              (parse_backs-Ensures fuel (back cmd) s₁ (omega (arith, lexed.next_le))
                (omega (arith, k.forward)) words)
              λ r (a, b, c, d). (omega (arith, k.forward), b, omega arith, d))
        (λ _. returns (k.forward, k.within, refl, words))

  -- A simple command: its words, its redirections, and the bytes that it takes.
  pub parse_simple-Ensures :
      (s : State) → s.pos ≤ length text → Ensures (Builds text s) (parse_simple text s)
  unfolding parse_simple
  parse_simple-Ensures s h = Ensures-bind (zalloc-Ensures size_exec s) λ s₁ (pos, used).
      Ensures-bind (parse_redirs-Ensures (length text + 1) s₁ (omega arith) (omega arith))
        λ (rs, s₂) first.
          Ensures-bind
            (parse_args-Ensures (length text + 1) [] rs s₂ first.moves.within (omega arith) tt
              (omega arith) first.files)
            λ (args, rs', s₃) c. returns (record {
              moves = record {
                forward = omega (arith, c.forward, first.moves.forward);
                within = c.within;
                taken = omega (arith, c.used, first.moves.taken, size_of-wrap (exec args) rs');
              };
              words = wrap-Holds (IsWord text) (exec args) rs' (c.words, c.few) c.files;
            })
