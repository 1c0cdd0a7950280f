-- ===== src/Labyrinth/Tests.antt =====
-- minilab/labyrinth: runs on small maps, and the theorems at such maps.
use jyyos.Prelude.{ℕ, zero, suc, ◌<◌, ◌≡◌, ◌≢◌, refl, inl, inr, true, false}
use jyyos.Prelude.{arith, some, List, [], ◌∷◌, ◌++◌, get_or, replicate}
use jyyos.Prelude.CText.{Bytes, newline, fgets, until_nul, chop_newline}
use jyyos.Labyrinth.{Labyrinth, Grid, here}
use jyyos.Labyrinth.Find.{find_player}
use jyyos.Labyrinth.Connected.{is_connected}
use jyyos.Labyrinth.Connected.Decide.{Connected, Decides, is_connected-Decides}
use jyyos.Labyrinth.Move.{move_player, step_to}
use jyyos.Labyrinth.Move.Outcome.{Moved, move_player-Moved}
use jyyos.Labyrinth.Move.Keeps.{KeepsPlayers, move_player-KeepsPlayers, move_player-Connected}
use jyyos.Labyrinth.Storage.{ok, fault, stuck, load_map, load_lines, save_map, add_line}
use jyyos.Labyrinth.Storage.Lines.{unlines}
use jyyos.Labyrinth.Storage.Load.{LoadedMap, load_map-LoadedMap, load_map_empty}
use jyyos.Labyrinth.Storage.Overflow.{lines_then, load_map_overflow}
use jyyos.Labyrinth.Storage.Total.{load_map-ne-stuck}
use jyyos.Labyrinth.Storage.RoundTrip.{IsSavable, Restores, load_map-save_map}
use jyyos.Labyrinth.Main.{Opt, Files, main, read_opts, play, save_stage, move_stage}

abbrev grid_of : List Bytes → Grid
grid_of rows i j = get_or (get_or rows i []) j 0

-- 1.#
-- #.2
abbrev maze : Labyrinth
maze = record {
  map = grid_of ((b'1' ∷ b'.' ∷ b'#' ∷ []) ∷ (b'#' ∷ b'.' ∷ b'2' ∷ []) ∷ []);
  rows = 2;
  cols = 3;
}

-- .#.
abbrev walled : Labyrinth
walled = record { map = grid_of ((b'.' ∷ b'#' ∷ b'.' ∷ []) ∷ []); rows = 1; cols = 3 }

abbrev memory : Labyrinth
memory = record { map = λ i j. 7; rows = 0; cols = 0 }

maze_connected : is_connected maze ≡ some true
unfolding is_connected
maze_connected = refl

walled_not_connected : is_connected walled ≡ some false
unfolding is_connected
walled_not_connected = refl

player_2 : find_player maze b'2' ≡ here 1 2
unfolding find_player
player_2 = refl

step_right : (move_player maze b'1' "right").0 ≡ true
unfolding move_player step_to
step_right = refl

step_left : (move_player maze b'1' "left").0 ≡ false
unfolding move_player step_to
step_left = refl

saved_walled : save_map walled true ≡ some (b'.' ∷ b'#' ∷ b'.' ∷ newline ∷ [])
unfolding save_map
saved_walled = refl

abbrev files : Files
files = record { contents = λ f. some (b'.' ∷ b'.' ∷ newline ∷ []); can_write = λ f. true }

abbrev move_opts : List Opt
move_opts = Opt.map "map.txt" ∷ Opt.player (b'3' ∷ []) ∷ Opt.move "up" ∷ []

-- The new player is put on the first '.', whatever the direction.
run_move :
    main memory files move_opts
    ≡ ok (record { code = 0; written = some (b'3' ∷ b'.' ∷ newline ∷ []) })
unfolding main read_opts play save_stage move_stage move_player step_to save_map is_connected
    load_map load_lines fgets until_nul chop_newline add_line
run_move = refl

maze-Connected : Connected maze
maze-Connected = elim (d.accepts answered) [
  | inl no_space ↦ absurd (no_space 0 1 (omega arith) (omega arith) refl)
  | inr c ↦ c
]
  where
    d : Decides maze (is_connected maze)
    d = is_connected-Decides maze

    answered : d.answer ≡ true
    answered = cc (d.returns, maze_connected)

is_connected-Decides_example : Decides walled (is_connected walled)
is_connected-Decides_example = is_connected-Decides walled

move_player-Moved_example : Moved maze b'1' "right" (move_player maze b'1' "right")
move_player-Moved_example = move_player-Moved maze b'1' "right"

move_player-Connected_example : Connected (move_player maze b'1' "right").1
move_player-Connected_example = move_player-Connected maze b'1' "right" refl maze-Connected

move_player-KeepsPlayers_example : KeepsPlayers maze b'1' (move_player maze b'1' "right")
move_player-KeepsPlayers_example = move_player-KeepsPlayers maze b'1' "right" (omega arith)

maze-IsSavable : IsSavable maze
maze-IsSavable = record {
  some_rows = omega arith;
  rows_fit = omega arith;
  some_cols = omega arith;
  cols_fit = omega arith;
  cells = cells;
}
  where
    cells : (i j : ℕ) → i < 2 → j < 3 → (maze.map i j ≢ 0) × (maze.map i j ≢ newline)
    cells zero zero hi hj = omega arith
    cells zero (suc zero) hi hj = omega arith
    cells zero (suc (suc zero)) hi hj = omega arith
    cells zero (suc (suc (suc j))) hi hj = absurd (omega arith)
    cells (suc zero) zero hi hj = omega arith
    cells (suc zero) (suc zero) hi hj = omega arith
    cells (suc zero) (suc (suc zero)) hi hj = omega arith
    cells (suc zero) (suc (suc (suc j))) hi hj = absurd (omega arith)
    cells (suc (suc i)) j hi hj = absurd (omega arith)

load_map-save_map_example : Restores maze (load_map memory (save_map maze true))
load_map-save_map_example = load_map-save_map maze memory maze-IsSavable

load_map-ne-stuck_example : load_map memory (some (b'.' ∷ 0 ∷ b'.' ∷ [])) ≢ stuck
load_map-ne-stuck_example = load_map-ne-stuck memory (some (b'.' ∷ 0 ∷ b'.' ∷ []))

abbrev two_lines : List Bytes
two_lines = (b'.' ∷ []) ∷ (b'#' ∷ b'.' ∷ []) ∷ []

load_map-LoadedMap_example : LoadedMap two_lines (load_map memory (some (unlines two_lines)))
load_map-LoadedMap_example = load_map-LoadedMap memory two_lines (omega arith) (omega arith)

load_map_empty_example :
    (m : Grid) × (load_map memory (some (unlines ([] ∷ [] ∷ [])))
      ≡ ok (false, record memory { map = m }))
load_map_empty_example = load_map_empty memory ([] ∷ [] ∷ []) (omega arith) refl

abbrev dots : ℕ → Bytes
dots n = replicate n b'.'

load_map_overflow_example :
    load_map memory (some (lines_then two_lines (dots 100 ++ newline ∷ []))) ≡ fault
load_map_overflow_example =
    load_map_overflow memory two_lines (dots 100) [] (omega arith) (omega arith) (omega arith)
      (omega arith)
