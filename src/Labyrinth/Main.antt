-- ===== src/Labyrinth/Main.antt =====
-- labyrinth.c, main: the options, and then loading, checking, moving and saving.
pub mod Runs
use jyyos.Prelude.{ℕ, Bool, true, false, not, ◌&&◌, ◌||◌, ◌==◌, if◌then◌else◌}
use jyyos.Prelude.{Option, none, some, List, [], ◌∷◌, get_or}
use jyyos.Prelude.CText.{Bytes}
use jyyos.Labyrinth.{Labyrinth, is_valid_player}
use jyyos.Labyrinth.Connected.{is_connected}
use jyyos.Labyrinth.Move.{move_player}
use jyyos.Labyrinth.Storage.{Result, ok, fault, stuck, load_map, save_map}
use Prim.Native.String.{String}
use text.Mathlib.Text.{◌==◌ as str_eq}

-- What `getopt_long` returns: an option with its argument, '?' for one that is unknown or lacks its
-- argument, and any other of its short options ('o'). The operands that it leaves are not read.
pub data Opt : Type 0 where
  version : Opt
  map : String → Opt
  player : Bytes → Opt
  move : String → Opt
  bad : Opt
  other : Opt

-- The variables that the option loop sets; `none` is NULL.
pub record Args : Type 0 where
  pub filename : Option String
  pub player_id : Option Bytes
  pub move_direction : Option String
  pub version_flag : Bool
  pub other_args : Bool

abbrev pub no_args : Args
no_args = record {
  filename = none;
  player_id = none;
  move_direction = none;
  version_flag = false;
  other_args = false;
}

abbrev pub is_direction : String → Bool
is_direction d = str_eq d "up" || str_eq d "down" || str_eq d "left" || str_eq d "right"

-- One round of the option loop; `none` is its `return 1`.
unfoldable pub read_opt : Args → Opt → Option Args
read_opt a version = some (record a { version_flag = true })
read_opt a (map name) = some (record a { filename = some name; other_args = true })
read_opt a (player id) = some (record a { player_id = some id; other_args = true })
read_opt a (move d) =
    if str_eq d ""
    then some (record a { move_direction = some d })
    else if is_direction d
    then some (record a { move_direction = some d; other_args = true })
    else none
read_opt a bad = none
read_opt a other = some a

unfoldable pub read_opts : Args → List Opt → Option Args
unfolding read_opt
read_opts a [] = some a
read_opts a (o ∷ os) = elim (read_opt a o) [ none ↦ none | some a' ↦ read_opts a' os ]

-- The file system: what `fopen` finds to read under a name, and whether it opens it for writing.
pub record Files : Type 0 where
  pub contents : Option String → Option Bytes
  pub can_write : Option String → Bool

-- The exit code, and the new contents of the map file if it was written.
pub record Exit : Type 0 where
  pub code : ℕ
  pub written : Option Bytes

abbrev pub exit_with : ℕ → Exit
exit_with n = record { code = n; written = none }

-- playerId == NULL || !isValidPlayer(playerId[0]) || playerId[1] != '\0', turned round.
abbrev pub is_player_id : Option Bytes → Bool
is_player_id none = false
is_player_id (some id) = is_valid_player (get_or id 0 0) && get_or id 1 0 == 0

abbrev pub player_char : Option Bytes → ℕ
player_char none = 0
player_char (some id) = get_or id 0 0

-- The move, if one was asked for.
unfoldable pub move_stage : Args → Labyrinth → Bool × Labyrinth
move_stage a lab = elim a.move_direction [
  | none ↦ (true, lab)
  | some d ↦ move_player lab (player_char a.player_id) d
]

unfoldable pub save_stage : Files → Args → Bool × Labyrinth → Exit
save_stage files a (false, lab) = exit_with 1
save_stage files a (true, lab) = elim (save_map lab (files.can_write a.filename)) [
  | none ↦ exit_with 1
  | some bytes ↦ record { code = 0; written = some bytes }
]

-- The checks and the move on the map that was loaded.
unfoldable pub play : Files → Args → Labyrinth → Result Exit
play files a lab =
    if not (is_player_id a.player_id) then ok (exit_with 1) else elim (is_connected lab) [
      | none ↦ stuck
      | some false ↦ ok (exit_with 1)
      | some true ↦ ok (save_stage files a (move_stage a lab))
    ]

-- `memory` is what `malloc` returned for the labyrinth.
unfoldable pub main : Labyrinth → Files → List Opt → Result Exit
main memory files opts = elim (read_opts no_args opts) [
  | none ↦ ok (exit_with 1)
  | some a ↦
      if a.version_flag && a.other_args
      then ok (exit_with 1)
      else if a.version_flag
      then ok (exit_with 0)
      else elim (load_map memory (files.contents a.filename)) [
        | ok (false, lab) ↦ ok (exit_with 1)
        | ok (true, lab) ↦ play files a lab
        | fault ↦ fault
        | stuck ↦ stuck
      ]
]
