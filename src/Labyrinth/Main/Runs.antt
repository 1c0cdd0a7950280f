-- ===== src/Labyrinth/Main/Runs.antt =====
-- labyrinth.c, main: every run ends, and what it has checked when it ends.
use jyyos.Prelude.{◌≡◌, ◌⊎◌, true, false}
use jyyos.Prelude.{none, some, List}
use jyyos.Prelude.CText.{Bytes}
use jyyos.Labyrinth.{Labyrinth}
use jyyos.Labyrinth.Connected.Reach.{Cell, IsOpen, Reach}
use jyyos.Labyrinth.Connected.Decide.{Connected, HasNoSpace}
use jyyos.Labyrinth.Storage.{Result, ok, fault, load_map, save_map}
use jyyos.Labyrinth.Main.{
  Opt, Args, no_args, read_opts, Files, Exit, exit_with, is_player_id, move_stage,
}

-- The options were read, and they do not ask for the version.
abbrev pub Proceeds : List Opt → Args → Type 0
Proceeds opts a = (read_opts no_args opts ≡ some a) × (a.version_flag ≡ false)

-- The map was loaded and has passed the checks, and so has the player.
abbrev pub Checked : Labyrinth → Files → List Opt → Args → Labyrinth → Type 0
Checked memory files opts a lab =
    Proceeds opts a
    × (load_map memory (files.contents a.filename) ≡ ok (true, lab))
    × (is_player_id a.player_id ≡ true)
    × (HasNoSpace lab ⊎ Connected lab)

-- Why a run refuses, with exit code 1 and the map file as it was.
pub data Refusal (memory : Labyrinth) (files : Files) (opts : List Opt) : Type 0 where
  bad_option : read_opts no_args opts ≡ none → Refusal memory files opts
  mixed_version :
      (a : Args)
      → read_opts no_args opts ≡ some a
      → a.version_flag ≡ true
      → a.other_args ≡ true
      → Refusal memory files opts
  no_map :
      (a : Args) (lab : Labyrinth)
      → Proceeds opts a
      → load_map memory (files.contents a.filename) ≡ ok (false, lab)
      → Refusal memory files opts
  bad_player :
      (a : Args) (lab : Labyrinth)
      → Proceeds opts a
      → load_map memory (files.contents a.filename) ≡ ok (true, lab)
      → is_player_id a.player_id ≡ false
      → Refusal memory files opts
  not_connected :
      (a : Args) (lab : Labyrinth) (p q : Cell)
      → Proceeds opts a
      → load_map memory (files.contents a.filename) ≡ ok (true, lab)
      → is_player_id a.player_id ≡ true
      → IsOpen lab p
      → IsOpen lab q
      → ¬ Reach lab p q
      → Refusal memory files opts
  no_move :
      (a : Args) (lab : Labyrinth)
      → Checked memory files opts a lab
      → (move_stage a lab).0 ≡ false
      → Refusal memory files opts
  not_writable :
      (a : Args) (lab : Labyrinth)
      → Checked memory files opts a lab
      → (move_stage a lab).0 ≡ true
      → files.can_write a.filename ≡ false
      → Refusal memory files opts

-- How a run can end.
pub data Ends (memory : Labyrinth) (files : Files) (opts : List Opt) : Result Exit → Type 0 where
  refused : Refusal memory files opts → Ends memory files opts (ok (exit_with 1))
  printed_version :
      (a : Args)
      → read_opts no_args opts ≡ some a
      → a.version_flag ≡ true
      → a.other_args ≡ false
      → Ends memory files opts (ok (exit_with 0))
  saved :
      (a : Args) (lab : Labyrinth) (bytes : Bytes)
      → Checked memory files opts a lab
      → (move_stage a lab).0 ≡ true
      → files.can_write a.filename ≡ true
      → save_map (move_stage a lab).1 true ≡ some bytes
      → Ends memory files opts (ok (record { code = 0; written = some bytes }))
  overflowed :
      (a : Args)
      → Proceeds opts a
      → load_map memory (files.contents a.filename) ≡ fault
      → Ends memory files opts fault
