-- ===== src/Pstree/Main.antt =====
-- minilab/pstree, main: how it ends, for every list of options and every /proc.
pub mod Options
use jyyos.Prelude.{
  ℕ, ◌<◌, ◌≡◌, ◌≢◌, refl, sym, ap, ◌∙◌, ◌⊎◌, subst, inl, inr, arith, Bool, true, false, ◌||◌,
  if◌then◌else◌, Bool-cases, Option-cases, Option, none, some, List, [], ◌∷◌, take,
}
use jyyos.Prelude.Int.{ℤ}
use jyyos.Prelude.CText.{Bytes}
use mathlib.Core.List.{Memᴰ}
use mathlib.Core.List.Memᴰ
use mathlib.Core.Logic.{◌↔◌}
use jyyos.Pstree.{ProcessNode, same, max_processes, read_names, get_process_ids}
use jyyos.Pstree.Print.{
  Result, Opt, show_pids, numeric_sort, version, help, unrecognized, Flags, read_opts,
  find_process_by_pid, first_orphan, find_root_process, print_process_tree, Ran, helped, versioned,
  failed, shown, main,
}
use jyyos.Pstree.Main.Options.{
  asked, is_pids, is_version, is_help, is_unknown, flags_of, read_opts-flags_of,
}
use jyyos.Pstree.Read.{processes, read_names-processes}
use jyyos.Pstree.Print.Search.{
  All, IsIn, found_some, found_none, All-Mem, first_orphan-some, first_orphan-none,
}
use jyyos.Pstree.Print.Outline.{Prints, Outline, IsLineOf, Overfull}
use jyyos.Pstree.Print.Shows.{print_process_tree-Prints}

abbrev one : Bytes
one = b'1' ∷ []

abbrev nil_pid : Bytes
nil_pid = b'0' ∷ []

-- The root is process 1, or without it a process whose parent is 0.
abbrev pub IsRoot : List ProcessNode → Bytes → Type 0
IsRoot tree root =
    IsIn tree root
    × ((root ≡ one)
        ⊎ ((p : ProcessNode) × Memᴰ p tree
            × (p.pid ≡ root)
            × (p.ppid ≡ nil_pid)
            × (IsIn tree one → ⊥)))

abbrev pub NoRoot : List ProcessNode → Type 0
NoRoot tree = (IsIn tree one → ⊥) × ((p : ProcessNode) → Memᴰ p tree → p.ppid ≢ nil_pid)

data Root (tree : List ProcessNode) : Option Bytes → Type 0 where
  is_root : {root : Bytes} → IsRoot tree root → Root tree (some root)
  no_root : NoRoot tree → Root tree none

find_root_process-Root : (tree : List ProcessNode) → Root tree (find_root_process tree)
unfolding find_root_process
find_root_process-Root tree = elim (Option-cases (find_process_by_pid tree one)) [
  | inr (p, e) ↦
      let (m, same_pid) = found_some tree one p e in
      rw (find_root_process, e) (is_root ((p, m, refl), inl same_pid))
  | inl e ↦ elim (Option-cases (first_orphan tree)) [
    | inr (pid, o) ↦
        let (p, m, is_pid, orphan) = first_orphan-some tree pid o in
        rw (find_root_process, e, o)
          (is_root ((p, m, is_pid), inr (p, m, is_pid, orphan, found_none tree one e)))
    | inl o ↦
        rw (find_root_process, e, o)
          (no_root (found_none tree one e, λ p m. first_orphan-none tree p o m))
  ]
]

module _ (atoi : Bytes → ℤ)
    (qsort : (ProcessNode → ProcessNode → ℤ) → List ProcessNode → List ProcessNode)
    (files : Bytes → Option Bytes) where
  -- The processes of the names in /proc, the first 10000.
  abbrev pub tree_of : Option (List Bytes) → List ProcessNode
  tree_of none = []
  tree_of (some ns) = take max_processes (processes files ns)

  -- No option asks main to stop, and no operand is left.
  abbrev pub Proceeds : List Opt → Bool → Type 0
  Proceeds opts extra =
      (asked is_unknown opts ≡ false)
      × (asked is_help opts ≡ false)
      × (asked is_version opts ≡ false)
      × (extra ≡ false)

  pub data Finishes (names : Option (List Bytes)) (opts : List Opt) (extra : Bool)
      : Ran → Type 0 where
    refuses : asked is_unknown opts ≡ true → Finishes names opts extra failed
    helps :
        asked is_unknown opts ≡ false → asked is_help opts ≡ true → Finishes names opts extra helped
    tells_version :
        asked is_unknown opts ≡ false
        → asked is_help opts ≡ false
        → asked is_version opts ≡ true
        → Finishes names opts extra versioned
    has_operand :
        asked is_unknown opts ≡ false
        → asked is_help opts ≡ false
        → asked is_version opts ≡ false
        → extra ≡ true
        → Finishes names opts extra failed
    no_names : Proceeds opts extra → names ≡ none → Finishes names opts extra failed
    finds_no_root : Proceeds opts extra → NoRoot (tree_of names) → Finishes names opts extra failed
    shows :
        {root : Bytes} {r : Result}
        → Proceeds opts extra
        → IsRoot (tree_of names) root
        → Prints
            (Outline atoi qsort files (tree_of names) (asked is_pids opts) root 0)
            (IsLineOf atoi qsort files (tree_of names) root 0 (asked is_pids opts))
            (Overfull (tree_of names) root)
            r
        → Finishes names opts extra (shown r)

  module _
      (qsort-Mem : (c : ProcessNode → ProcessNode → ℤ) (p : ProcessNode) (ps : List ProcessNode)
        → Memᴰ p (qsort c ps) ↔ Memᴰ p ps)
      (rank : Bytes → ℕ) (fuel : ℕ) where
    abbrev initial : Flags
    initial = record { shows_pids = false; asks_version = false; asks_help = false }

    -- What main does with the root, if there is one.
    Root-Finishes :
        (names : Option (List Bytes)) (opts : List Opt) (o : Option Bytes)
        → Proceeds opts false
        → All (λ p. rank p.pid < rank p.ppid) (tree_of names)
        → All (λ p. rank p.pid < fuel) (tree_of names)
        → Root (tree_of names) o
        → Finishes names opts false (elim o [
          | none ↦ failed
          | some root ↦
              shown (
                print_process_tree atoi qsort files fuel
                  (tree_of names)
                  root
                  0
                  (asked is_pids opts))
        ])
    Root-Finishes names opts (some root) p falls enough (is_root h) =
        let (q, m, same_pid) = h.0 in
        let small = All-Mem (λ p. rank p.pid < fuel) (tree_of names) q enough m in
        shows p h (
          print_process_tree-Prints atoi qsort files qsort-Mem (tree_of names) (asked is_pids opts)
            rank fuel root 0 falls (subst (λ x. rank x < fuel) same_pid small))
    Root-Finishes names opts none p falls enough (no_root h) = finds_no_root p h

    tree-Finishes :
        (names : Option (List Bytes)) (opts : List Opt) (tree : List ProcessNode)
        → tree ≡ tree_of names
        → Proceeds opts false
        → All (λ p. rank p.pid < rank p.ppid) (tree_of names)
        → All (λ p. rank p.pid < fuel) (tree_of names)
        → Finishes names opts false (elim (find_root_process tree) [
          | none ↦ failed
          | some root ↦
              shown (print_process_tree atoi qsort files fuel tree root 0 (asked is_pids opts))
        ])
    tree-Finishes names opts tree e p falls enough =
        subst
          (λ t. Finishes names opts false (elim (find_root_process t) [
            | none ↦ failed
            | some root ↦
                shown (print_process_tree atoi qsort files fuel t root 0 (asked is_pids opts))
          ]))
          (sym e)
          (Root-Finishes names opts (find_root_process (tree_of names)) p falls enough
            (find_root_process-Root (tree_of names)))

    Proceeds-Finishes :
        (names : Option (List Bytes)) (opts : List Opt)
        → Proceeds opts false
        → All (λ p. rank p.pid < rank p.ppid) (tree_of names)
        → All (λ p. rank p.pid < fuel) (tree_of names)
        → Finishes names opts false (main atoi qsort files fuel names opts false)
    unfolding main
    Proceeds-Finishes none opts p falls enough =
        rw (main, read_opts-flags_of opts initial, p.0, p.1, p.2) (no_names p refl)
    Proceeds-Finishes (some ns) opts p falls enough =
        rw (main, read_opts-flags_of opts initial, p.0, p.1, p.2)
          (tree-Finishes (some ns) opts (read_names files ns [])
            (read_names-processes files ns [] (omega arith)) p falls enough)

    -- If qsort rearranges its list, and a rank below the fuel falls from every parent to its child
    -- among the first 10000 processes of /proc, then main ends, for every list of options: with an
    -- option that it does not know it fails; otherwise with -h it prints the help, with -V the
    -- version, and with an operand it fails; otherwise, without /proc or if the processes have no
    -- root, it fails. Otherwise its root is process 1, or without it a process whose parent is 0.
    -- If a descendant of the root has more than 1000 children it faults, and if none has it prints
    -- the outline of the root: the line of each process, indented by generation and with the PID if
    -- -p is given, stands before what its children show, one after the other in the order of qsort,
    -- and the lines are those of the root's descendants.
    pub main-Finishes :
        (names : Option (List Bytes)) (opts : List Opt) (extra : Bool)
        → All (λ p. rank p.pid < rank p.ppid) (tree_of names)
        → All (λ p. rank p.pid < fuel) (tree_of names)
        → Finishes names opts extra (main atoi qsort files fuel names opts extra)
    unfolding main
    main-Finishes names opts extra falls enough = elim (Bool-cases (asked is_unknown opts)) [
      | inl u ↦ rw (main, read_opts-flags_of opts initial, u) (refuses u)
      | inr u ↦ elim (Bool-cases (asked is_help opts)) [
        | inl h ↦ rw (main, read_opts-flags_of opts initial, u, h) (helps u h)
        | inr h ↦ elim (Bool-cases (asked is_version opts)) [
          | inl v ↦ rw (main, read_opts-flags_of opts initial, u, h, v) (tells_version u h v)
          | inr v ↦ elim (Bool-cases extra) [
            | inl x ↦
                rw (main, read_opts-flags_of opts initial, u, h, v, x) (has_operand u h v refl)
            | inr x ↦
                subst (λ b. Finishes names opts b (main atoi qsort files fuel names opts b)) (sym x)
                  (Proceeds-Finishes names opts (u, h, v, refl) falls enough)
          ]
        ]
      ]
    ]
