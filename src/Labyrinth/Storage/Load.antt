-- ===== src/Labyrinth/Storage/Load.antt =====
-- labyrinth.c, loadMap: what it makes of a file of lines that fit.
use jyyos.Prelude.{ℕ, zero, suc, ◌+◌, ◌<◌, ◌≤◌, ◌≡◌, ◌∙◌, ap, ◌⊎◌, Bool, true, false}
use jyyos.Prelude.{ltb, if◌then◌else◌, arith, some, List, [], ◌∷◌, length}
use jyyos.Prelude.CText.{Bytes}
use jyyos.Labyrinth.{Labyrinth, Grid, max_rows, max_cols}
use jyyos.Labyrinth.Storage.{Result, ok, Loading, finish_load, load_lines, load_map}
use jyyos.Labyrinth.Storage.Lines.{unlines, AllFit, Holds, widest, Loads, load_lines-Loads}

-- A successful load: the rows hold the lines, and the counters are those of the first lines.
pub record LoadedMap (ls : List Bytes) (result : Result (Bool × Labyrinth)) : Type 0 where
  pub out : Labyrinth
  pub returns : result ≡ ok (true, out)
  pub holds : Holds out.map 0 ls
  pub rows : (out.rows ≡ length ls) ⊎ (max_rows ≤ length ls) × (out.rows ≡ max_rows)
  pub small : out.rows ≤ max_rows
  pub cols : out.cols ≡ widest 0 max_rows ls

widest-lt : (w n : ℕ) (ls : List Bytes) → AllFit ls → w < max_cols → widest w n ls < max_cols
widest-lt w zero ls fit h = h
widest-lt w (suc n) [] fit h = h
widest-lt w (suc n) (l ∷ ls) ((_, k), fits) h =
    widest-lt (if ltb w (length l) then length l else w) n ls fits (ground arith)

widest-pos : (n : ℕ) (ls : List Bytes) → 0 < widest 0 n ls → 0 < length ls
widest-pos zero ls h = elim h [ ]
widest-pos (suc n) [] h = elim h [ ]
widest-pos (suc n) (l ∷ ls) h = omega arith

rows_pos : {r n : ℕ} → (r ≡ 0 + n) ⊎ (max_rows ≤ 0 + n) × (r ≡ max_rows) → 0 < n → 0 < r
rows_pos h k = omega arith

rows_from_zero :
    {r n : ℕ}
    → (r ≡ 0 + n) ⊎ (max_rows ≤ 0 + n) × (r ≡ max_rows)
    → (r ≡ n) ⊎ (max_rows ≤ n) × (r ≡ max_rows)
rows_from_zero h = omega arith

finish_load-true :
    (lab : Labyrinth) (s : Loading)
    → 0 < s.rows
    → s.rows ≤ max_rows
    → 0 < s.cols
    → s.cols ≤ max_cols
    → finish_load lab s ≡ (true, record { map = s.map; rows = s.rows; cols = s.cols })
unfolding finish_load
finish_load-true lab s a b c d = ground arith

finish_load-false :
    (lab : Labyrinth) (s : Loading)
    → s.cols ≡ 0
    → finish_load lab s ≡ (false, record lab { map = s.map })
unfolding finish_load
finish_load-false lab s e = ground arith

module _ (lab : Labyrinth) (ls : List Bytes) (fit : AllFit ls) where
  loop :
      Loads
        (record { map = lab.map; rows = 0; cols = 0 })
        ls
        (load_lines (max_rows + 1) (unlines ls) (record { map = lab.map; rows = 0; cols = 0 }))
  loop =
      load_lines-Loads (max_rows + 1) (record { map = lab.map; rows = 0; cols = 0 }) ls fit
        (omega arith) (omega arith)

  -- On a file of lines that fit, one of the first MAX_ROWS not empty, loadMap succeeds: the rows of
  -- the array hold the lines, the rows are counted up to MAX_ROWS, and the columns are those of the
  -- longest of the first MAX_ROWS lines.
  pub load_map-LoadedMap :
      0 < widest 0 max_rows ls → LoadedMap ls (load_map lab (some (unlines ls)))
  unfolding load_map
  load_map-LoadedMap some_text =
      let narrow = widest-lt 0 max_rows ls fit (omega arith) in
      let lines = widest-pos max_rows ls some_text in
      record {
        out = record { map = loop.out.map; rows = loop.out.rows; cols = loop.out.cols };
        returns =
            rw (loop.returns, load_map)
              (ap ok (
                finish_load-true lab loop.out (rows_pos loop.rows lines) loop.small
                  (omega (arith, loop.cols)) (omega (arith, loop.cols))));
        holds = loop.holds;
        rows = rows_from_zero loop.rows;
        small = loop.small;
        cols = loop.cols;
      }

  -- If the first MAX_ROWS of the lines are all empty, or there is no line, it returns false.
  pub load_map_empty :
      widest 0 max_rows ls ≡ 0
      → (m : Grid) × (load_map lab (some (unlines ls)) ≡ ok (false, record lab { map = m }))
  unfolding load_map
  load_map_empty no_text = (
    loop.out.map,
    rw (loop.returns, load_map) (ap ok (finish_load-false lab loop.out (loop.cols ∙ no_text))),
  )
