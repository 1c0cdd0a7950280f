-- ===== src/Pstree/Print.antt =====
-- minilab/pstree: the search for processes, and what PrintProcessTree and main print.
pub mod Search
pub mod Outline
pub mod Shows
use jyyos.Prelude.{ℕ, zero, suc, ◌+◌, Bool, true, false, not, ◌&&◌, ltb, leb, if◌then◌else◌}
use jyyos.Prelude.{Option, none, some, List, [], ◌∷◌, ◌++◌, length}
use jyyos.Prelude.Int.{ℤ, pos, negsuc, ◌+ℤ◌}
use jyyos.Prelude.CText.{Bytes, until_nul, fgets}
use jyyos.Pstree.{ProcessNode, same, is_empty, cut_newline, path_of, comm_file, get_process_ids}

unfoldable pub find_process_by_pid : List ProcessNode → Bytes → Option ProcessNode
find_process_by_pid [] pid = none
find_process_by_pid (p ∷ tree) pid = if same p.pid pid then some p else find_process_by_pid tree pid

-- GetChildren.
unfoldable pub get_children : List ProcessNode → Bytes → List ProcessNode
get_children [] parent = []
get_children (p ∷ tree) parent =
    let rest = get_children tree parent in if same p.ppid parent then p ∷ rest else rest

-- The size of the array that PrintProcessTree passes to GetChildren.
abbrev pub max_children : ℕ
max_children = 1000

-- A printed line: the depth of the indent, the name, and the PID if it is shown.
pub record Line : Type 0 where
  pub depth : ℕ
  pub name : Bytes
  pub shown_pid : Option Bytes

-- `fault` is a write past the array of children; `stuck` is the fuel running out.
pub data Result : Type 0 where
  printed : List Line → Result
  fault stuck : Result

abbrev pub then_print : Result → Result → Result
then_print (printed a) (printed b) = printed (a ++ b)
then_print (printed a) fault = fault
then_print (printed a) stuck = stuck
then_print fault r = fault
then_print stuck r = stuck

abbrev pub negate : ℤ → ℤ
negate (pos zero) = pos zero
negate (pos (suc n)) = negsuc n
negate (negsuc n) = pos (suc n)

-- "unknown"
abbrev pub unknown : Bytes
unknown = b'u' ∷ b'n' ∷ b'k' ∷ b'n' ∷ b'o' ∷ b'w' ∷ b'n' ∷ []

-- The C library's atoi and qsort, and what fopen finds.
module _ (atoi : Bytes → ℤ)
    (qsort : (ProcessNode → ProcessNode → ℤ) → List ProcessNode → List ProcessNode)
    (files : Bytes → Option Bytes) where
  abbrev pub compare_pids : ProcessNode → ProcessNode → ℤ
  compare_pids a b = atoi a.pid +ℤ negate (atoi b.pid)

  -- The name of a process, from its file comm.
  unfoldable pub process_name : Bytes → Bytes
  process_name pid =
      let read : Bytes = elim (files (path_of pid comm_file)) [
        | none ↦ []
        | some file ↦ elim (fgets 256 file) [
          | none ↦ []
          | some (line, rest) ↦ cut_newline (until_nul line)
        ]
      ] in
      if is_empty read then unknown else read

  -- The loop over the children, with the call for each.
  abbrev pub print_each : (Bytes → Result) → List ProcessNode → Result
  print_each again [] = printed []
  print_each again (p ∷ children) = then_print (again p.pid) (print_each again children)

  -- The fuel is the depth of the calls.
  unfoldable pub print_process_tree : ℕ → List ProcessNode → Bytes → ℕ → Bool → Result
  print_process_tree zero tree root_pid depth show = stuck
  print_process_tree (suc fuel) tree root_pid depth show =
      elim (find_process_by_pid tree root_pid) [
        | none ↦ printed []
        | some root ↦
            let line : Line = record {
              depth = depth;
              name = process_name root.pid;
              shown_pid = if show then some root.pid else none;
            } in
            let children = get_children tree root_pid in
            if ltb max_children (length children)
            then fault
            else then_print (printed (line ∷ [])) (
                print_each (λ pid. print_process_tree fuel tree pid (depth + 1) show)
                  (qsort compare_pids children))
      ]

-- The first process whose parent is "0".
abbrev pub first_orphan : List ProcessNode → Option Bytes
first_orphan [] = none
first_orphan (p ∷ tree) = if same p.ppid (b'0' ∷ []) then some p.pid else first_orphan tree

unfoldable pub find_root_process : List ProcessNode → Option Bytes
find_root_process tree = elim (find_process_by_pid tree (b'1' ∷ [])) [
  | some p ↦ some p.pid
  | none ↦ first_orphan tree
]

pub data Opt : Type 0 where
  show_pids numeric_sort version help unrecognized : Opt

-- The flags show_pids, version and help.
pub record Flags : Type 0 where
  pub shows_pids : Bool
  pub asks_version : Bool
  pub asks_help : Bool

-- The loop over the options that getopt_long returns; none is its exit.
unfoldable pub read_opts : List Opt → Flags → Option Flags
read_opts [] flags = some flags
read_opts (show_pids ∷ opts) flags = read_opts opts (record flags { shows_pids = true })
read_opts (numeric_sort ∷ opts) flags = read_opts opts flags
read_opts (version ∷ opts) flags = read_opts opts (record flags { asks_version = true })
read_opts (help ∷ opts) flags = read_opts opts (record flags { asks_help = true })
read_opts (unrecognized ∷ opts) flags = none

-- How main ends: with the help, the version, exit code 1, or the printed tree.
pub data Ran : Type 0 where
  helped versioned failed : Ran
  shown : Result → Ran

-- `names` is what readdir returns for /proc, and `extra` whether an operand is left.
unfoldable pub main :
    (Bytes → ℤ)
    → ((ProcessNode → ProcessNode → ℤ) → List ProcessNode → List ProcessNode)
    → (Bytes → Option Bytes)
    → ℕ
    → Option (List Bytes)
    → List Opt
    → Bool
    → Ran
main atoi qsort files fuel names opts extra =
    elim (read_opts opts (record { shows_pids = false; asks_version = false; asks_help = false })) [
      | none ↦ failed
      | some flags ↦
          let go : Ran = elim (get_process_ids files names) [
            | none ↦ failed
            | some tree ↦ elim (find_root_process tree) [
              | none ↦ failed
              | some root ↦
                  shown (print_process_tree atoi qsort files fuel tree root 0 flags.shows_pids)
            ]
          ] in
          if flags.asks_help
          then helped
          else if flags.asks_version
          then versioned
          else if extra
          then failed
          else go
    ]
