-- ===== src/Pstree.antt =====
-- minilab/pstree: the list of processes that GetProcessids reads from /proc.
pub mod Print
pub mod Read
pub mod Status
pub mod Main
pub mod Heap
mod Tests
use jyyos.Prelude.{
  ℕ, zero, suc, ◌+◌, Bool, true, false, not, ◌&&◌, ◌||◌, ltb, leb, ◌==◌, if◌then◌else◌,
}
use jyyos.Prelude.{Option, none, some, List, [], ◌∷◌, ◌++◌, length, take, drop}
use jyyos.Prelude.CText.{Bytes, newline, until_nul, fgets}

pub record ProcessNode : Type 0 where
  pub pid : Bytes
  pub ppid : Bytes

-- strcmp(a, b) == 0
abbrev pub same : Bytes → Bytes → Bool
same [] [] = true
same [] (b ∷ bs) = false
same (a ∷ rest) [] = false
same (a ∷ rest) (b ∷ bs) = a == b && same rest bs

abbrev pub is_empty : Bytes → Bool
is_empty [] = true
is_empty (b ∷ bs) = false

-- strncmp(line, prefix, strlen(prefix)) == 0
abbrev pub starts_with : Bytes → Bytes → Bool
starts_with line [] = true
starts_with [] (p ∷ prefix) = false
starts_with (b ∷ line) (p ∷ prefix) = b == p && starts_with line prefix

-- The loop over the name: is it made of digits?
unfoldable pub is_pid : Bytes → Bool
is_pid [] = true
is_pid (c ∷ name) = if leb b'0' c && leb c b'9' then is_pid name else false

abbrev pub skip_blanks : Bytes → Bytes
skip_blanks [] = []
skip_blanks (b ∷ bs) = if b == b' ' || b == 9 then skip_blanks bs else b ∷ bs

-- s[strcspn(s, "\n")] = '\0'
abbrev pub cut_newline : Bytes → Bytes
cut_newline [] = []
cut_newline (b ∷ bs) = if b == newline then [] else b ∷ cut_newline bs

-- snprintf(field, 32, "%s", start) and the cut at the newline, for the text behind the name.
unfoldable pub field_of : Bytes → Bytes
field_of text = cut_newline (take 31 (skip_blanks text))

-- "Pid:" and "PPid:"
abbrev pub pid_name : Bytes
pid_name = b'P' ∷ b'i' ∷ b'd' ∷ b':' ∷ []

abbrev pub ppid_name : Bytes
ppid_name = b'P' ∷ b'P' ∷ b'i' ∷ b'd' ∷ b':' ∷ []

-- One line of the status file: pid_str and ppid_str.
unfoldable pub read_field : Bytes → Bytes × Bytes → Bytes × Bytes
read_field line (pid, ppid) =
    if starts_with line pid_name
    then (field_of (drop 4 line), ppid)
    else if starts_with line ppid_name
    then (pid, field_of (drop 5 line))
    else (pid, ppid)

-- The loop over the lines of the status file; `none` is the fuel running out.
unfoldable pub read_fields : ℕ → Bytes → Bytes × Bytes → Option (Bytes × Bytes)
read_fields zero file s = none
read_fields (suc fuel) file s = elim (fgets 256 file) [
  | none ↦ some s
  | some (line, rest) ↦
      let s' = read_field (until_nul line) s in
      let more = read_fields fuel rest s' in
      if not (is_empty s'.0) && not (is_empty s'.1) then some s' else more
]

-- "/proc/", "/status" and "/comm"
abbrev pub proc_dir : Bytes
proc_dir = b'/' ∷ b'p' ∷ b'r' ∷ b'o' ∷ b'c' ∷ b'/' ∷ []

abbrev pub status_file : Bytes
status_file = b'/' ∷ b's' ∷ b't' ∷ b'a' ∷ b't' ∷ b'u' ∷ b's' ∷ []

abbrev pub comm_file : Bytes
comm_file = b'/' ∷ b'c' ∷ b'o' ∷ b'm' ∷ b'm' ∷ []

-- snprintf(path, 256, "/proc/%s/...", name)
abbrev pub path_of : Bytes → Bytes → Bytes
path_of name file = take 255 (proc_dir ++ name ++ file)

abbrev pub max_processes : ℕ
max_processes = 10000

-- What fopen finds: the contents of a file.
module _ (files : Bytes → Option Bytes) where
  -- The body of the loop over /proc for one name: the process, if it is one.
  unfoldable pub read_process : Bytes → Option ProcessNode
  read_process name =
      if not (is_pid name) || ltb 240 (length name)
      then none
      else elim (files (path_of name status_file)) [
        | none ↦ none
        | some file ↦ elim (read_fields (length file + 1) file ([], [])) [
          | none ↦ none
          | some (pid, ppid) ↦
              if not (is_empty pid) && not (is_empty ppid)
              then some (record { pid = pid; ppid = ppid })
              else none
        ]
      ]

  -- The loop over the names that readdir returns, with the processes so far.
  unfoldable pub read_names : List Bytes → List ProcessNode → List ProcessNode
  read_names [] tree = tree
  read_names (name ∷ names) tree = elim (read_process name) [
    | none ↦ read_names names tree
    | some p ↦
        let tree' = tree ++ p ∷ [] in
        let more = read_names names tree' in
        if leb max_processes (length tree') then tree' else more
  ]

  -- GetProcessids; the names are none if /proc cannot be opened.
  abbrev pub get_process_ids : Option (List Bytes) → Option (List ProcessNode)
  get_process_ids none = none
  get_process_ids (some names) = some (read_names names [])
