-- ===== src/Pstree/Tests.antt =====
-- minilab/pstree: runs on a /proc of two processes, and the theorems there.
use jyyos.Prelude.{
  ℕ, zero, suc, ◌+◌, ◌≡◌, refl, arith, true, false, if◌then◌else◌, Option, none, some, List, [],
  ◌∷◌, ◌++◌,
}
use jyyos.Prelude.Int.{ℤ, pos}
use jyyos.Prelude.CText.{Bytes, newline, fgets, until_nul}
use mathlib.Core.List.{Memᴰ}
use jyyos.Pstree.Heap.{Heap, Malloc}
use jyyos.Pstree.{
  ProcessNode, same, pid_name, ppid_name, path_of, status_file, comm_file, is_pid, field_of,
  read_field, read_fields, read_process, read_names,
}
use jyyos.Pstree.Print.Search.{All}
use jyyos.Prelude.{◌<◌}
use jyyos.Pstree.Main.{tree_of, Finishes, main-Finishes}
use jyyos.Pstree.Status.{AllOther, IsValue, status_text, read_process-status_text}
use jyyos.Pstree.Print
use jyyos.Pstree.Print.{
  Result, stuck, printed, main, read_opts, find_root_process, find_process_by_pid, get_children,
  process_name, print_process_tree, shown,
}
use jyyos.Prelude.{◌↔◌}

abbrev one : Bytes
one = b'1' ∷ []

abbrev seven : Bytes
seven = b'7' ∷ []

abbrev status_of : Bytes → Bytes → Bytes
status_of pid ppid = pid_name ++ (9 ∷ pid) ++ (newline ∷ ppid_name) ++ (9 ∷ ppid) ++ (newline ∷ [])

-- /proc/1 and /proc/7, a child of 1; the name of process 1 is "init".
abbrev files : Bytes → Option Bytes
files path =
    if same path (path_of one status_file)
    then some (status_of one (b'0' ∷ []))
    else if same path (path_of seven status_file)
    then some (status_of seven one)
    else if same path (path_of one comm_file)
    then some (b'i' ∷ b'n' ∷ b'i' ∷ b't' ∷ newline ∷ [])
    else none

abbrev names : List Bytes
names = seven ∷ (b's' ∷ b'y' ∷ b's' ∷ []) ∷ one ∷ []

abbrev node : Bytes → Bytes → ProcessNode
node a b = record { pid = a; ppid = b }

abbrev tree : List ProcessNode
tree = node seven one ∷ node one (b'0' ∷ []) ∷ []

two_processes : read_names files names [] ≡ tree
unfolding read_names read_process read_fields read_field field_of is_pid fgets until_nul
two_processes = refl

-- An atoi and a qsort for the runs.
abbrev digit_of : Bytes → ℤ
digit_of [] = pos 0
digit_of (d ∷ s) = pos d

abbrev keep : (ProcessNode → ProcessNode → ℤ) → List ProcessNode → List ProcessNode
keep c ps = ps

shown_tree :
    main digit_of keep files 3 (some names) (Print.show_pids ∷ []) false
    ≡ shown (
        printed (
          record { depth = 0; name = b'i' ∷ b'n' ∷ b'i' ∷ b't' ∷ []; shown_pid = some one }
          ∷ record { depth = 1; name = Print.unknown; shown_pid = some seven }
          ∷ []))
unfolding main read_opts find_root_process find_process_by_pid get_children process_name
    print_process_tree read_names read_process read_fields read_field field_of is_pid fgets
    until_nul
shown_tree = refl

abbrev rank : Bytes → ℕ
rank pid = if same pid seven then 0 else if same pid one then 1 else 2

keep-Mem :
    (c : ProcessNode → ProcessNode → ℤ) (p : ProcessNode) (ps : List ProcessNode)
    → Memᴰ p (keep c ps) ↔ Memᴰ p ps
keep-Mem c p ps = (λ m. m, λ m. m)

-- A line of another field.
abbrev field : Bytes → Bytes
field first = first ++ b':' ∷ b'x' ∷ []

other : AllOther (field (b'N' ∷ []) ∷ [])
other = ((omega arith, omega arith, refl, refl), tt)

other' : AllOther (field (b'T' ∷ []) ∷ [])
other' = ((omega arith, omega arith, refl, refl), tt)

value : IsValue seven
value = (omega arith, omega arith, omega arith, omega arith)

value' : IsValue one
value' = (omega arith, omega arith, omega arith, omega arith)

abbrev full_status : Bytes
full_status =
    status_text (field (b'N' ∷ []) ∷ []) seven (field (b'T' ∷ []) ∷ []) one (b'G' ∷ newline ∷ [])

abbrev one_file : Bytes → Option Bytes
one_file path = if same path (path_of seven status_file) then some full_status else none

seven-is_pid : is_pid seven ≡ true
unfolding is_pid
seven-is_pid = refl

read_process-status_text_example : read_process one_file seven ≡ some (node seven one)
read_process-status_text_example =
    read_process-status_text (field (b'N' ∷ []) ∷ []) seven (field (b'T' ∷ []) ∷ []) one
      (b'G' ∷ newline ∷ []) other other' value value' one_file seven seven-is_pid (omega arith) refl

falls : All (λ p. rank p.pid < rank p.ppid) (tree_of digit_of keep files (some names))
unfolding read_process read_fields read_field field_of is_pid fgets until_nul
falls = omega arith

low : All (λ p. rank p.pid < 3) (tree_of digit_of keep files (some names))
unfolding read_process read_fields read_field field_of is_pid fgets until_nul
low = omega arith

main-Finishes_example :
    Finishes digit_of keep files
      (some names)
      (Print.show_pids ∷ [])
      false
      (main digit_of keep files 3 (some names) (Print.show_pids ∷ []) false)
main-Finishes_example =
    main-Finishes digit_of keep files keep-Mem rank 3 (some names) (Print.show_pids ∷ []) false
      falls low

-- An allocator that gives out the first free one of so many pointers.
abbrev first_free : ℕ → ℕ → Heap → Option ℕ
first_free zero p heap = none
first_free (suc left) p heap = elim (heap p) [
  | none ↦ some p
  | some n ↦ first_free left (p + 1) heap
]

abbrev few_blocks : Malloc
few_blocks n heap = first_free 9 16 heap
