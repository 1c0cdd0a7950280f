-- ===== src/Sh/Parse/Sound/Grammar.antt =====
-- sh.c, parseline, parsepipe, parseexec, parseblock and parsecmd: the recursive descent ends, and
-- the tree that it builds.
use jyyos.Prelude.{ℕ, zero, suc, ◌+◌, ◌*◌, ◌<◌, ◌≤◌, ◌≡◌, refl, true, ◌==◌, arith}
use jyyos.Prelude.{[], ◌∷◌, length}
use jyyos.Prelude.CText.{Bytes}
use jyyos.Sh.{Cmd, gettoken, peek}
use jyyos.Sh.Lex.{HasNoNul, IsWord, Lexed-moves, gettoken-Lexed, peek-Peeked}
use jyyos.Sh.Parse.{State, size_pair, parse_line, parse_pipe, parse_exec, parse_block, parsecmd}
use jyyos.Sh.Parse.Ensures.{Ensures, returns, Ensures-bind, Ensures-map, Ensures-if, Ensures-assert}
use jyyos.Sh.Parse.Sound.Loops.{
  parse_backs-Ensures, parse_redirs-Ensures, parse_simple-Ensures, zalloc-Ensures,
}
use jyyos.Sh.Parse.Sound.{Holds, size_of, size_of-wrap, wrap-Holds, Builds}

-- What has been read up to the state s, as a part of what began at s₀ and took `size` bytes.
Builds-after :
    {text : Bytes} {s s' : State} {r : Cmd × State}
    → s.pos ≤ s'.pos
    → s'.used ≡ s.used
    → Builds text s' r
    → Builds text s r
Builds-after le same b = record {
  moves = record {
    forward = omega (arith, b.moves.forward);
    within = b.moves.within;
    taken = omega (arith, b.moves.taken);
  };
  words = b.words;
}

module _ (text : Bytes) (live : HasNoNul text) where
  -- The token after a byte that peek has seen.
  after_peek :
      (s : ℕ) (toks : Bytes)
      → s ≤ length text
      → (peek text s toks).1 ≡ true
      → (s < (gettoken text (peek text s toks).0).next)
        × ((gettoken text (peek text s toks).0).next ≤ length text)
  after_peek s toks h seen =
      let k = peek-Peeked text s toks h in
      let l = gettoken-Lexed text (peek text s toks).0 live k.within in
      (omega (arith, k.forward, Lexed-moves _ l (k.sees seen).0), l.next_le)

  -- Four calls for each byte that is left are enough.
  mutual
    unfolding parse_line

    line-Builds :
        (fuel : ℕ) (s : State)
        → s.pos ≤ length text
        → 4 * length text + 4 ≤ fuel + 4 * s.pos
        → Ensures (Builds text s) (parse_line text fuel s)
    line-Builds zero s h enough = absurd (omega arith)
    line-Builds (suc fuel) s h enough =
        Ensures-bind (pipe-Builds fuel s h (omega arith)) λ (left, s₁) b₁.
          Ensures-bind
            (parse_backs-Ensures text live (length text + 1) left s₁ b₁.moves.within (omega arith)
              b₁.words)
            λ (cmd, s₂) (forward, within, used, words).
              let k = peek-Peeked text s₂.pos (b';' ∷ []) within in
              Ensures-if (peek text s₂.pos (b';' ∷ [])).1
                (λ seen.
                  let (more, fits) = after_peek s₂.pos (b';' ∷ []) within seen in
                  Ensures-bind
                    (line-Builds fuel
                      (record s₂ { pos = (gettoken text (peek text s₂.pos (b';' ∷ [])).0).next })
                      fits (omega (arith, b₁.moves.forward)))
                    λ (right, s₃) b₃. Ensures-bind (zalloc-Ensures size_pair s₃) λ s₄ (pos, taken).
                      returns (record {
                        moves = record {
                          forward = omega (arith, b₁.moves.forward, b₃.moves.forward);
                          within = omega (arith, b₃.moves.within);
                          taken = omega (arith, b₁.moves.taken, b₃.moves.taken);
                        };
                        words = (words, b₃.words);
                      }))
                (λ _. returns (record {
                  moves = record {
                    forward = omega (arith, b₁.moves.forward, k.forward);
                    within = k.within;
                    taken = omega (arith, b₁.moves.taken);
                  };
                  words = words;
                }))

    pipe-Builds :
        (fuel : ℕ) (s : State)
        → s.pos ≤ length text
        → 4 * length text + 3 ≤ fuel + 4 * s.pos
        → Ensures (Builds text s) (parse_pipe text fuel s)
    pipe-Builds zero s h enough = absurd (omega arith)
    pipe-Builds (suc fuel) s h enough =
        Ensures-bind (exec-Builds fuel s h (omega arith)) λ (left, s₁) b₁.
          let k = peek-Peeked text s₁.pos (b'|' ∷ []) b₁.moves.within in
          Ensures-if (peek text s₁.pos (b'|' ∷ [])).1
            (λ seen.
              let (more, fits) = after_peek s₁.pos (b'|' ∷ []) b₁.moves.within seen in
              Ensures-bind
                (pipe-Builds fuel
                  (record s₁ { pos = (gettoken text (peek text s₁.pos (b'|' ∷ [])).0).next }) fits
                  (omega (arith, b₁.moves.forward)))
                λ (right, s₂) b₂. Ensures-bind (zalloc-Ensures size_pair s₂) λ s₃ (pos, taken).
                  returns (record {
                    moves = record {
                      forward = omega (arith, b₁.moves.forward, b₂.moves.forward);
                      within = omega (arith, b₂.moves.within);
                      taken = omega (arith, b₁.moves.taken, b₂.moves.taken);
                    };
                    words = (b₁.words, b₂.words);
                  }))
            (λ _. returns (record {
              moves = record {
                forward = omega (arith, b₁.moves.forward, k.forward);
                within = k.within;
                taken = b₁.moves.taken;
              };
              words = b₁.words;
            }))

    exec-Builds :
        (fuel : ℕ) (s : State)
        → s.pos ≤ length text
        → 4 * length text + 2 ≤ fuel + 4 * s.pos
        → Ensures (Builds text s) (parse_exec text fuel s)
    exec-Builds zero s h enough = absurd (omega arith)
    exec-Builds (suc fuel) s h enough =
        let k = peek-Peeked text s.pos (b'(' ∷ []) h in
        let s' = record s { pos = (peek text s.pos (b'(' ∷ [])).0 } in
        Ensures-if (peek text s.pos (b'(' ∷ [])).1
          (λ seen.
            Ensures-map (block-Builds fuel s' k.within (omega (arith, k.forward)))
              λ r b. Builds-after k.forward refl b)
          (λ _.
            Ensures-map (parse_simple-Ensures text live s' k.within)
              λ r b. Builds-after k.forward refl b)

    block-Builds :
        (fuel : ℕ) (s : State)
        → s.pos ≤ length text
        → 4 * length text + 1 ≤ fuel + 4 * s.pos
        → Ensures (Builds text s) (parse_block text fuel s)
    block-Builds zero s h enough = absurd (omega arith)
    block-Builds (suc fuel) s h enough = Ensures-assert (peek text s.pos (b'(' ∷ [])).1 λ opened.
        let (more, fits) = after_peek s.pos (b'(' ∷ []) h opened in
        Ensures-bind
          (line-Builds fuel
            (record s { pos = (gettoken text (peek text s.pos (b'(' ∷ [])).0).next }) fits
            (omega arith))
          λ (cmd, s₁) b₁. Ensures-assert (peek text s₁.pos (b')' ∷ [])).1 λ closed.
            let (more₁, fits₁) = after_peek s₁.pos (b')' ∷ []) b₁.moves.within closed in
            Ensures-bind
              (parse_redirs-Ensures text live (length text + 1)
                (record s₁ { pos = (gettoken text (peek text s₁.pos (b')' ∷ [])).0).next }) fits₁
                (omega arith))
              λ (rs, s₂) d. returns (record {
                moves = record {
                  forward = omega (arith, b₁.moves.forward, d.moves.forward);
                  within = d.moves.within;
                  taken = omega (arith, b₁.moves.taken, d.moves.taken, size_of-wrap cmd rs);
                };
                words = wrap-Holds (IsWord text) cmd rs b₁.words d.files;
              })

-- On every line without a NUL parsecmd ends: it fails an assert, or it returns a tree in which each
-- command has fewer than MAXARGS words, each redirection is of descriptor 0 or 1 and each word is a
-- maximal run of bytes that are neither blank nor a symbol, and the bytes of `mem` taken are the
-- sizes of its nodes.
pub parsecmd-Holds :
    (text : Bytes)
    → HasNoNul text
    → Ensures (λ (cmd, used). Holds (IsWord text) cmd × (used ≡ size_of cmd)) (parsecmd text)
unfolding parsecmd
parsecmd-Holds text live =
    Ensures-bind
      (line-Builds text live (4 * length text + 4) (record { pos = 0; used = 0 }) (omega arith)
        (omega arith))
      λ (cmd, s) b.
        Ensures-assert ((peek text s.pos []).0 == length text)
          λ _. returns (b.words, omega (arith, b.moves.taken))
