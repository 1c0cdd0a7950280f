-- ===== src/Testkit/Worker/Chunks.antt =====
-- testkit.c, worker_process: the worker receives the table, in whatever pieces the pipe delivers
-- it.
use jyyos.Prelude.{ℕ, zero, suc, ◌+◌, ◌<◌, ◌≤◌, ◌≡◌, refl, sym, ◌∙◌, arith, true, false, ltb, ◌==◌}
use jyyos.Prelude.{List, [], ◌∷◌, ◌++◌, length, drop, length-append, append_assoc, append-nil}
use jyyos.Testkit.Worker.{read_loop, receive}

module _ {Cell : Type 0} where
  abbrev pub concat : List (List Cell) → List Cell
  concat [] = []
  concat (c ∷ cs) = c ++ concat cs

  -- No read returns nothing.
  abbrev pub AllFilled : List (List Cell) → Type 0
  AllFilled [] = Unit {0}
  AllFilled (c ∷ cs) = (0 < length c) × AllFilled cs

  read_loop-concat :
      (size : ℕ) (chunks : List (List Cell)) (buf : List Cell)
      → AllFilled chunks
      → length buf + length (concat chunks) ≤ size
      → read_loop size chunks buf ≡ buf ++ concat chunks
  unfolding read_loop
  read_loop-concat size [] buf filled fits = sym (append-nil buf)
  read_loop-concat size (c ∷ cs) buf (some_cells, filled) fits =
      let len = length-append c (concat cs) in
      let open_end : ltb (length buf) size ≡ true = ground (arith, len, fits, some_cells) in
      let not_empty : (length c == 0) ≡ false = ground (arith, some_cells) in
      rw (open_end, not_empty)
        (read_loop-concat size cs (buf ++ c) filled (omega (arith, len, length-append buf c, fits))
          ∙ append_assoc buf c (concat cs))

  drop_all : (n : ℕ) (bs : List Cell) → length bs ≤ n → drop n bs ≡ []
  drop_all zero [] h = refl
  drop_all zero (b ∷ bs) h = absurd (omega arith)
  drop_all (suc n) [] h = refl
  drop_all (suc n) (b ∷ bs) h = drop_all n bs (omega arith)

  -- If the reads return the cells of a table as large as the worker's, in any pieces that are not
  -- empty, then the worker's array holds these cells.
  pub receive-concat :
      (zeros : List Cell) (chunks : List (List Cell))
      → AllFilled chunks
      → length (concat chunks) ≡ length zeros
      → receive zeros chunks ≡ concat chunks
  unfolding receive
  receive-concat zeros chunks filled whole =
      let all = read_loop-concat (length zeros) chunks [] filled (omega (arith, whole)) in
      rw (all, drop_all (length (concat chunks)) zeros (omega (arith, whole)))
        (append-nil (concat chunks))
