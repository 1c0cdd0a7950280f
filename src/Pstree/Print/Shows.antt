-- ===== src/Pstree/Print/Shows.antt =====
-- minilab/pstree: PrintProcessTree shows the outline of its root.
use jyyos.Prelude.{
  ℕ, zero, suc, ◌+◌, ◌<◌, ◌≡◌, ◌≢◌, ◌↔◌, refl, ap, ◌∙◌, ◌⊎◌, subst, inl, inr, arith, Bool, ltb,
  ltb→lt, Bool-cases, Option-cases,
}
use jyyos.Prelude.{Option, List, [], ◌∷◌, ◌++◌, length, lt→ltb, sym, false}
use jyyos.Prelude.Int.{ℤ}
use jyyos.Prelude.CText.{Bytes}
use mathlib.Core.List.{Memᴰ}
use mathlib.Core.List.Memᴰ
use jyyos.Pstree.{ProcessNode}
use jyyos.Pstree.Print.{
  Line, find_process_by_pid, get_children, max_children, Result, printed, stuck, print_process_tree,
  compare_pids,
}
use jyyos.Pstree.Print.Search.{All, IsIn, found_some, found_none, get_children-Mem, All-Mem}
use jyyos.Pstree.Print.Outline.{
  Descends, Descends-IsIn, Overfull, Prints, prints, faults, Prints-ne, Prints-map,
  then_print-Prints, line_of, IsLineOf, Outline, missing, itself, Outlines, each-Prints,
}

module _ (atoi : Bytes → ℤ)
    (qsort : (ProcessNode → ProcessNode → ℤ) → List ProcessNode → List ProcessNode)
    (files : Bytes → Option Bytes) where
  module _
      (qsort-Mem : (c : ProcessNode → ProcessNode → ℤ) (p : ProcessNode) (ps : List ProcessNode)
        → Memᴰ p (qsort c ps) ↔ Memᴰ p ps)
      (tree : List ProcessNode) (show : Bool) where
    abbrev print_at : ℕ → Bytes → ℕ → Result
    print_at fuel pid depth = print_process_tree atoi qsort files fuel tree pid depth show

    abbrev sorted : Bytes → List ProcessNode
    sorted pid = qsort (compare_pids atoi qsort files) (get_children tree pid)

    Memᴰ-sorted :
        (pid : Bytes) (c : ProcessNode) → Memᴰ c (sorted pid) ↔ (Memᴰ c tree × (c.ppid ≡ pid))
    Memᴰ-sorted pid c =
        let kept = qsort-Mem (compare_pids atoi qsort files) c (get_children tree pid) in
        let child = get_children-Mem tree pid c in
        (λ m. child.0 (kept.0 m), λ h. kept.1 (child.1 h))

    -- The lines of a process are its own and those of its children.
    line_or_below :
        (pid : Bytes) (depth : ℕ) (l : Line)
        → IsIn tree pid
        → ((l ≡ line_of atoi qsort files show pid depth)
            ⊎ ((c : ProcessNode) × Memᴰ c (sorted pid)
                × IsLineOf atoi qsort files tree c.pid (depth + 1) show l))
          ↔ IsLineOf atoi qsort files tree pid depth show l
    line_or_below pid depth l present = (
      λ q. elim q [
        | inl e ↦
            (pid, 0, (present, refl), e ∙ ap (line_of atoi qsort files show pid) (omega arith))
        | inr (c, m, (x, k, d, e)) ↦
            let (m', parent) = (Memᴰ-sorted pid c).0 m in
            (
              x,
              suc k,
              (present, (c, m', parent, d)),
              e ∙ ap (line_of atoi qsort files show x) (omega arith),
            )
      ],
      λ (x, k, d, e). split x k d e,
    )
      where
        split :
            (x : Bytes) (k : ℕ)
            → Descends tree pid x k
            → l ≡ line_of atoi qsort files show x (depth + k)
            → (l ≡ line_of atoi qsort files show pid depth)
              ⊎ ((c : ProcessNode) × Memᴰ c (sorted pid)
                  × IsLineOf atoi qsort files tree c.pid (depth + 1) show l)
        split x zero (h, is) e = inl (
            e
            ∙ ap (λ y. line_of atoi qsort files show y (depth + 0)) is
            ∙ ap (line_of atoi qsort files show pid) (omega arith))
        split x (suc k) (h, (c, m, parent, d)) e = inr (
          c,
          (Memᴰ-sorted pid c).1 (m, parent),
          (x, k, d, e ∙ ap (line_of atoi qsort files show x) (omega arith)),
        )

    -- It is a process or its children that has too many descendants.
    Overfull-split :
        (pid : Bytes)
        → IsIn tree pid
        → ((max_children < length (get_children tree pid))
            ⊎ ((c : ProcessNode) × Memᴰ c (sorted pid) × Overfull tree c.pid))
          ↔ Overfull tree pid
    Overfull-split pid present = (
      λ q. elim q [
        | inl many ↦ (pid, 0, (present, refl), many)
        | inr (c, m, (x, k, d, many)) ↦
            let (m', parent) = (Memᴰ-sorted pid c).0 m in
            (x, suc k, (present, (c, m', parent, d)), many)
      ],
      λ (x, k, d, many). split x k d many,
    )
      where
        split :
            (x : Bytes) (k : ℕ)
            → Descends tree pid x k
            → max_children < length (get_children tree x)
            → (max_children < length (get_children tree pid))
              ⊎ ((c : ProcessNode) × Memᴰ c (sorted pid) × Overfull tree c.pid)
        split x zero (h, is) many =
            inl (subst (λ y. max_children < length (get_children tree y)) is many)
        split x (suc k) (h, (c, m, parent, d)) many =
            inr (c, (Memᴰ-sorted pid c).1 (m, parent), (x, k, d, many))

    one_line : (line : Line) → Prints (λ ls. ls ≡ line ∷ []) (λ l. l ≡ line) ⊥ (printed (line ∷ []))
    one_line line = prints refl (λ l. (λ m. Memᴰ.eq_of_singleton m, Memᴰ.head)) (λ f. f)

    -- One call, whose recursive calls show what they should.
    print_suc-Prints :
        (fuel : ℕ) (pid : Bytes) (depth : ℕ)
        → ((c : ProcessNode)
            → Memᴰ c (sorted pid)
            → Prints
                (Outline atoi qsort files tree show c.pid (depth + 1))
                (IsLineOf atoi qsort files tree c.pid (depth + 1) show)
                (Overfull tree c.pid)
                (print_at fuel c.pid (depth + 1)))
        → Prints
            (Outline atoi qsort files tree show pid depth)
            (IsLineOf atoi qsort files tree pid depth show)
            (Overfull tree pid)
            (print_at (suc fuel) pid depth)
    unfolding print_process_tree
    print_suc-Prints fuel pid depth h = elim (Option-cases (find_process_by_pid tree pid)) [
      | inl e ↦
          rw (print_process_tree, e)
            (prints (missing (found_none tree pid e))
              (λ l. (
                λ m. absurd (Memᴰ.not-nil m),
                λ (x, k, d, is). absurd (found_none tree pid e (Descends-IsIn tree pid x k d)),
              ))
              (λ (x, k, d, many). found_none tree pid e (Descends-IsIn tree pid x k d)))
      | inr (root, e) ↦
          let (m, same_pid) = found_some tree pid root e in
          let here : IsIn tree pid = (root, m, same_pid) in
          elim (Bool-cases (ltb max_children (length (get_children tree pid)))) [
            | inl many ↦
                rw (print_process_tree, e, many)
                  (faults (pid, 0, (here, refl), ltb→lt max_children _ many))
            | inr few ↦
                rw (print_process_tree, e, few, same_pid)
                  (Prints-map (λ ls s. s) (λ l. line_or_below pid depth l here)
                    (few_children pid here few)
                    (then_print-Prints (first_line pid depth here)
                      (one_line (line_of atoi qsort files show pid depth))
                      (each-Prints atoi qsort files tree show (depth + 1)
                        (λ c. IsLineOf atoi qsort files tree c.pid (depth + 1) show)
                        (λ c. Overfull tree c.pid) (λ c. print_at fuel c (depth + 1)) (sorted pid)
                        h)))
          ]
    ]
      where
        first_line :
            (pid : Bytes) (depth : ℕ)
            → IsIn tree pid
            → (ls ms : List Line) → ls ≡ line_of atoi qsort files show pid depth ∷ []
            → Outlines atoi qsort files tree show (sorted pid) (depth + 1) ms
            → Outline atoi qsort files tree show pid depth (ls ++ ms)
        first_line pid depth here ls ms e below =
            subst (λ x. Outline atoi qsort files tree show pid depth (x ++ ms)) (sym e)
              (itself here below)

        few_children :
            (pid : Bytes)
            → IsIn tree pid
            → ltb max_children (length (get_children tree pid)) ≡ false
            → (⊥ ⊎ ((c : ProcessNode) × Memᴰ c (sorted pid) × Overfull tree c.pid))
              ↔ Overfull tree pid
        few_children pid here few =
            let (there, back) = Overfull-split pid here in
            (
              λ q. elim q [ inl x ↦ elim x [ ] | inr y ↦ there (inr y) ],
              λ o. elim (back o) [
                | inl many ↦ let y = sym (lt→ltb _ _ many) ∙ few in absurd (cc)
                | inr y ↦ inr y
              ],
            )

    -- If a rank of the processes falls from every parent to its child, and qsort rearranges its
    -- list, then PrintProcessTree ends with calls no deeper than the rank of its root. If a
    -- descendant of the root has more than 1000 children it writes past the array of children.
    -- Otherwise it prints the outline of its root, whose lines are those of the descendants, each
    -- indented by the root's depth and its generation, with its PID if these are shown.
    pub print_process_tree-Prints :
        (rank : Bytes → ℕ) (fuel : ℕ) (pid : Bytes) (depth : ℕ)
        → All (λ p. rank p.pid < rank p.ppid) tree
        → rank pid < fuel
        → Prints
            (Outline atoi qsort files tree show pid depth)
            (IsLineOf atoi qsort files tree pid depth show)
            (Overfull tree pid)
            (print_process_tree atoi qsort files fuel tree pid depth show)
    print_process_tree-Prints rank zero pid depth falls enough = absurd (omega arith)
    print_process_tree-Prints rank (suc fuel) pid depth falls enough =
        print_suc-Prints fuel pid depth (λ c m.
          let (m', parent) = (Memᴰ-sorted pid c).0 m in
          let lower = All-Mem (λ p. rank p.pid < rank p.ppid) tree c falls m' in
          print_process_tree-Prints rank fuel c.pid (depth + 1) falls
            (omega (arith, subst (λ x. rank c.pid < rank x) parent lower, enough)))

    -- It ends.
    print_process_tree-ne :
        (rank : Bytes → ℕ) (fuel : ℕ) (pid : Bytes) (depth : ℕ)
        → All (λ p. rank p.pid < rank p.ppid) tree
        → rank pid < fuel
        → print_process_tree atoi qsort files fuel tree pid depth show ≢ stuck
    print_process_tree-ne rank fuel pid depth falls enough =
        Prints-ne (print_process_tree-Prints rank fuel pid depth falls enough)
