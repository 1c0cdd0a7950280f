-- ===== src/Labyrinth/Move.antt =====
-- labyrinth.c, movePlayer: a missing player is put on the first '.', another one takes a step.
pub mod Outcome
pub mod Keeps
use jyyos.Prelude.{ℕ, Bool, true, false, not, ◌&&◌, if◌then◌else◌}
use jyyos.Prelude.Int.{ℤ, inc, dec, to_ℕ}
use jyyos.Labyrinth.{Labyrinth, Position, write, is_empty_space}
use jyyos.Labyrinth.Find.{find_player, find_first_empty_space}
use jyyos.Labyrinth.Connected.{is_minus_one, is_nowhere}
use Prim.Native.String.{String}
use text.Mathlib.Text.{◌==◌ as str_eq}

-- The step of one direction: the new cell gets the player, the old one a '.'.
unfoldable pub step_to : Labyrinth → ℕ → Position → ℤ → ℤ → Bool × Labyrinth
unfolding is_empty_space
step_to lab id from row col =
    if is_empty_space lab row col
    then (
      true,
      record lab {
        map = write (write lab.map (to_ℕ row) (to_ℕ col) id) (to_ℕ from.row) (to_ℕ from.col) b'.';
      },
    )
    else (false, lab)

-- The placement of a player that is not on the map.
unfoldable pub place : Labyrinth → ℕ → Bool × Labyrinth
unfolding find_first_empty_space
place lab id =
    let space = find_first_empty_space lab in
    if not (is_minus_one space.row) && not (is_minus_one space.col)
    then (true, record lab { map = write lab.map (to_ℕ space.row) (to_ℕ space.col) id })
    else (false, lab)

unfoldable pub walk : Labyrinth → ℕ → String → Position → Bool × Labyrinth
walk lab id direction from =
    if str_eq direction "up"
    then step_to lab id from (dec from.row) from.col
    else if str_eq direction "down"
    then step_to lab id from (inc from.row) from.col
    else if str_eq direction "left"
    then step_to lab id from from.row (dec from.col)
    else if str_eq direction "right"
    then step_to lab id from from.row (inc from.col)
    else (false, lab)

unfoldable pub move_player : Labyrinth → ℕ → String → Bool × Labyrinth
unfolding find_player place walk
move_player lab id direction =
    let from = find_player lab id in
    if is_nowhere from then place lab id else walk lab id direction from
