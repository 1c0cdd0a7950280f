-- ===== src/Pstree/Print/Outline.antt =====
-- minilab/pstree: the outline of a process and its descendants, and what a run of PrintProcessTree
-- can end with.
use jyyos.Prelude.{
  ℕ, zero, suc, ◌+◌, ◌<◌, ◌≡◌, ◌≢◌, ◌↔◌, refl, ◌⊎◌, subst, inl, inr, Bool, if◌then◌else◌,
}
use jyyos.Prelude.{Option, none, some, List, [], ◌∷◌, ◌++◌, length}
use jyyos.Prelude.Int.{ℤ}
use jyyos.Prelude.CText.{Bytes}
use mathlib.Core.List.{Memᴰ}
use mathlib.Core.List.Memᴰ
use jyyos.Pstree.{ProcessNode}
use jyyos.Pstree.Print.{
  Line, process_name, get_children, max_children, Result, printed, fault, stuck, then_print,
  print_each, compare_pids,
}
use jyyos.Pstree.Print.Search.{IsIn}

-- x is k generations below the process root.
abbrev pub Descends : List ProcessNode → Bytes → Bytes → ℕ → Type 0
Descends tree root x zero = IsIn tree root × (x ≡ root)
Descends tree root x (suc k) =
    IsIn tree root × ((p : ProcessNode) × Memᴰ p tree × (p.ppid ≡ root) × Descends tree p.pid x k)

pub Descends-IsIn :
    (tree : List ProcessNode) (root x : Bytes) (k : ℕ) → Descends tree root x k → IsIn tree root
Descends-IsIn tree root x zero (h, e) = h
Descends-IsIn tree root x (suc k) (h, d) = h

-- A descendant has more children than the array has room for.
abbrev pub Overfull : List ProcessNode → Bytes → Type 0
Overfull tree root =
    (x : Bytes) × (k : ℕ) × Descends tree root x k × (max_children < length (get_children tree x))

-- What is printed has the shape R, its lines are those in Q, and F does not hold; a fault has the
-- cause F.
pub data Prints (R : List Line → Type 0) (Q : Line → Type 0) (F : Type 0) : Result → Type 0 where
  prints :
      {ls : List Line} → R ls → ((l : Line) → Memᴰ l ls ↔ Q l) → (F → ⊥) → Prints R Q F (printed ls)
  faults : F → Prints R Q F fault

pub Prints-ne :
    {R : List Line → Type 0} {Q : Line → Type 0} {F : Type 0} {r : Result}
    → Prints R Q F r
    → r ≢ stuck
Prints-ne (prints s h n) = cc
Prints-ne (faults f) = cc

pub Prints-map :
    {R R' : List Line → Type 0} {Q Q' : Line → Type 0} {F F' : Type 0} {r : Result}
    → ((ls : List Line) → R ls → R' ls)
    → ((l : Line) → Q l ↔ Q' l)
    → F ↔ F'
    → Prints R Q F r
    → Prints R' Q' F' r
Prints-map s f g (prints {ls} shape h n) =
    prints (s ls shape) (λ l. (λ m. (f l).0 ((h l).0 m), λ q. (h l).1 ((f l).1 q))) (λ x. n (g.1 x))
Prints-map s f g (faults e) = faults (g.0 e)

pub then_print-Prints :
    {R R' R'' : List Line → Type 0} {Q Q' : Line → Type 0} {F F' : Type 0} {a b : Result}
    → ((ls ms : List Line) → R ls → R' ms → R'' (ls ++ ms))
    → Prints R Q F a
    → Prints R' Q' F' b
    → Prints R'' (λ l. Q l ⊎ Q' l) (F ⊎ F') (then_print a b)
then_print-Prints join (prints {ls = as'} s h n) (prints {ls = bs} s' k n') =
    prints (join as' bs s s')
      (λ l. (
        λ m. elim (Memᴰ.append_cases as' m) [ inl x ↦ inl ((h l).0 x) | inr y ↦ inr ((k l).0 y) ],
        λ q. elim q [
          | inl x ↦ Memᴰ.append_left bs ((h l).1 x)
          | inr y ↦ Memᴰ.append_right as' ((k l).1 y)
        ],
      ))
      (λ q. elim q [ inl x ↦ n x | inr y ↦ n' y ])
then_print-Prints join (prints s h n) (faults f) = faults (inr f)
then_print-Prints join (faults f) b = faults (inl f)

module _ (atoi : Bytes → ℤ)
    (qsort : (ProcessNode → ProcessNode → ℤ) → List ProcessNode → List ProcessNode)
    (files : Bytes → Option Bytes) where
  -- The line of a process: its name behind an indent of its depth, with the PID if that is shown.
  abbrev pub line_of : Bool → Bytes → ℕ → Line
  line_of show pid depth = record {
    depth = depth;
    name = process_name atoi qsort files pid;
    shown_pid = if show then some pid else none;
  }

  -- A line for a descendant, indented by its generation.
  abbrev pub IsLineOf : List ProcessNode → Bytes → ℕ → Bool → Line → Type 0
  IsLineOf tree root depth show l =
      (x : Bytes) × (k : ℕ) × Descends tree root x k × (l ≡ line_of show x (depth + k))

  -- What a process shows, as text: its own line, and behind it what its children show, sorted by
  -- their PIDs and one step deeper. A process that is not in the list shows nothing.
  mutual
    pub data Outline (tree : List ProcessNode) (show : Bool) : Bytes → ℕ → List Line → Type 0 where
      missing : {pid : Bytes} {depth : ℕ} → (IsIn tree pid → ⊥) → Outline tree show pid depth []
      itself :
          {pid : Bytes} {depth : ℕ} {ls : List Line}
          → IsIn tree pid
          → Outlines tree show
              (qsort (compare_pids atoi qsort files) (get_children tree pid))
              (depth + 1)
              ls
          → Outline tree show pid depth (line_of show pid depth ∷ ls)

    pub data Outlines (tree : List ProcessNode) (show : Bool)
        : List ProcessNode → ℕ → List Line → Type 0 where
      nothing : {depth : ℕ} → Outlines tree show [] depth []
      another :
          {p : ProcessNode} {ps : List ProcessNode} {depth : ℕ} {ls ms : List Line}
          → Outline tree show p.pid depth ls
          → Outlines tree show ps depth ms
          → Outlines tree show (p ∷ ps) depth (ls ++ ms)

  pub each-Prints :
      (tree : List ProcessNode) (show : Bool) (depth : ℕ) (Q : ProcessNode → Line → Type 0)
      (F : ProcessNode → Type 0) (again : Bytes → Result) (cs : List ProcessNode)
      → ((c : ProcessNode)
          → Memᴰ c cs
          → Prints (Outline tree show c.pid depth) (Q c) (F c) (again c.pid))
      → Prints
          (Outlines tree show cs depth)
          (λ l. (c : ProcessNode) × Memᴰ c cs × Q c l)
          ((c : ProcessNode) × Memᴰ c cs × F c)
          (print_each atoi qsort files again cs)
  each-Prints tree show depth Q F again [] h =
      prints nothing (λ l. (λ m. absurd (Memᴰ.not-nil m), λ (c, m, q). absurd (Memᴰ.not-nil m)))
        (λ (c, m, q). absurd (Memᴰ.not-nil m))
  each-Prints tree show depth Q F again (c ∷ cs) h =
      Prints-map (λ ls s. s)
        (λ l. (
          λ q. elim q [ inl x ↦ (c, Memᴰ.head refl, x) | inr (d, m, y) ↦ (d, Memᴰ.tail m, y) ],
          λ (d, m, y). elim (Memᴰ.cases_cons m) [
            | inl e ↦ inl (subst (λ z. Q z l) e y)
            | inr m' ↦ inr (d, m', y)
          ],
        ))
        (
          λ q. elim q [ inl x ↦ (c, Memᴰ.head refl, x) | inr (d, m, y) ↦ (d, Memᴰ.tail m, y) ],
          λ (d, m, y). elim (Memᴰ.cases_cons m) [
            | inl e ↦ inl (subst F e y)
            | inr m' ↦ inr (d, m', y)
          ],
        )
        (then_print-Prints (λ ls ms a b. another a b) (h c (Memᴰ.head refl))
          (each-Prints tree show depth Q F again cs (λ d m. h d (Memᴰ.tail m))))
