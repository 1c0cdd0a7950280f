-- ===== src/Demos/Tree/Layers.antt =====
-- create-tree.c: the layers of the tree of processes.
use jyyos.Prelude.{
  ◌<◌, ◌⊎◌, inl, inr, ℕ, zero, suc, ◌+◌, ◌-◌, ◌^◌, ◌%◌, ◌≡◌, refl, ap, ◌∙◌, arith, ◌==◌, leb, ltb,
  if◌then◌else◌, Bool, Bool-cases, true, false, List, [], ◌∷◌, ◌++◌, get_or,
}
use jyyos.Prelude.Int.{pos, is_neg}
use jyyos.Demos.{Reply, Process, exit, print, fork, call, stuck}
use jyyos.Demos.Tree.{Line, stay, pstree_demo, create_process_tree, wait_all, finish}

-- The layers of a process in layer l and of those behind its forks, if every fork succeeds.
abbrev pub Layers : {Out : Type 0} → Process Out → ℕ → List ℕ → Type 0
Layers (exit code) l ls = ls ≡ l ∷ []
Layers (print o p) l ls = Layers p l ls
Layers (fork k) l ls =
    (pid : ℕ) × (child : List ℕ) × (parent : List ℕ) × Layers (k (pos 0)) (suc l) child
    × Layers (k (pos (suc pid))) l parent
    × (ls ≡ child ++ parent)
Layers (call c k) l ls = (r : Reply) × Layers (k r) l ls
Layers stuck l ls = ls ≡ l ∷ []

-- How many of the layers are layer j.
abbrev pub count : ℕ → List ℕ → ℕ
count j [] = 0
count j (l ∷ ls) = (if l == j then 1 else 0) + count j ls

-- The process has no children.
abbrev pub ForksNone : {Out : Type 0} → Process Out → Type 0
ForksNone p = (l : ℕ) (ls : List ℕ) → Layers p l ls → ls ≡ l ∷ []

Layers-if :
    {Out : Type 0} (b : Bool) (p q : Process Out)
    → ForksNone p
    → ForksNone q
    → ForksNone (if b then p else q)
Layers-if true p q h k = h
Layers-if false p q h k = k

stay-ForksNone : ForksNone stay
stay-ForksNone l ls (r, (a, (b, h))) = h

pstree_demo-ForksNone : ForksNone pstree_demo
unfolding pstree_demo
pstree_demo-ForksNone l ls (a, (b, (r, (f, h)))) =
    Layers-if (is_neg f.value) stay _ stay-ForksNone
      (λ l' ls' (t, (c, h')).
        Layers-if (get_or t.bytes 0 0 % 2 == 0) (exit 0) stay (λ l'' ls'' e. e) stay-ForksNone l'
          ls' h')
      l ls h

wait_all-ForksNone : (fuel : ℕ) → ForksNone (wait_all fuel)
unfolding wait_all
wait_all-ForksNone zero l ls h = h
wait_all-ForksNone (suc fuel) l ls (r, h) =
    Layers-if _ (wait_all fuel) (exit 0) (wait_all-ForksNone fuel) (λ l' ls' e. e) l ls h

finish-ForksNone : (fuel : ℕ) → ForksNone (finish fuel)
unfolding finish
finish-ForksNone fuel l ls (r, (r', h)) = wait_all-ForksNone fuel l ls h

-- The processes in layer j of a full binary tree whose root is in layer l, with `left` layers below
-- it.
abbrev pub width : ℕ → ℕ → ℕ → ℕ
width left l j = if ltb j l then 0 else if leb (j - l) left then 2 ^ (j - l) else 0

count-append : (j : ℕ) (xs ys : List ℕ) → count j (xs ++ ys) ≡ count j xs + count j ys
count-append j [] ys = omega arith
count-append j (x ∷ xs) ys = omega (arith, count-append j xs ys)

twice : (k : ℕ) → 2 ^ suc k ≡ 2 ^ k + 2 ^ k
twice k = omega arith

width-below : (left l j : ℕ) → j < l → width left l j ≡ 0
width-below left l j h = ground arith

width-at : (left l k : ℕ) → width left l (l + k) ≡ (if leb k left then 2 ^ k else 0)
width-at left l k =
    let here : ltb (l + k) l ≡ false = ground arith in
    let back : l + k - l ≡ k = omega arith in rw (here, back) refl

below_or_at : (l j : ℕ) → (j < l) ⊎ ((k : ℕ) × (j ≡ l + k))
below_or_at l j = elim (Bool-cases (ltb j l)) [
  | inl h ↦ inl (ground arith)
  | inr h ↦ inr (j - l, ground arith)
]

width-zero : (l j : ℕ) → count j (l ∷ []) ≡ width 0 l j
width-zero l j = elim (below_or_at l j) [
  | inl h ↦ ground (arith, width-below 0 l j h)
  | inr (zero, e) ↦ rw (e, width-at 0 l 0) (ground arith)
  | inr (suc k, e) ↦ rw (e, width-at 0 l (suc k)) (ground arith)
]

width-suc :
    (left l j : ℕ)
    → count j (l ∷ []) + (width left (suc l) j + width left (suc l) j) ≡ width (suc left) l j
width-suc left l j = elim (below_or_at l j) [
  | inl h ↦
      rw (width-below left (suc l) j (omega arith), width-below (suc left) l j h) (ground arith)
  | inr (zero, e) ↦
      rw (e, width-below left (suc l) (l + 0) (omega arith), width-at (suc left) l 0) (ground arith)
  | inr (suc k, e) ↦
      let shift : l + suc k ≡ suc l + k = omega arith in
      let low : width left (suc l) (l + suc k) ≡ (if leb k left then 2 ^ k else 0) =
        ap (width left (suc l)) shift ∙ width-at left (suc l) k in
      rw (e, low, width-at (suc left) l (suc k)) (ground (arith, twice k))
]

forked :
    {Out : Type 0} (pid : ℕ) (p q : Process Out) (l : ℕ) (ls : List ℕ)
    → Layers (if suc pid == 0 then p else q) l ls
    → Layers q l ls
forked pid p q l ls h = let parent : (suc pid == 0) ≡ false = ground arith in rw parent at h

-- If every fork succeeds and the caller forks no more: create_process_tree makes a full binary tree
-- of processes with max_depth - depth layers below its caller, so that the i-th layer below the
-- caller has 2^i processes.
pub create_process_tree-count :
    (left : ℕ) (p : Process Line) (l : ℕ) (ls : List ℕ) (j : ℕ)
    → ForksNone p
    → Layers (create_process_tree left p) l ls
    → count j ls ≡ width left l j
unfolding create_process_tree
create_process_tree-count zero p l ls j none h = ap (count j) (none l ls h) ∙ width-zero l j
create_process_tree-count (suc left) p l ls j none (pid1, child1, rest, first, h, e) =
    let (pid2, child2, caller, second, h', e') = forked pid1 _ _ l rest h in
    let last = none l caller (forked pid2 _ p l caller h') in
    let a =
      create_process_tree-count left pstree_demo (suc l) child1 j pstree_demo-ForksNone first in
    let b =
      create_process_tree-count left pstree_demo (suc l) child2 j pstree_demo-ForksNone second in
    omega (
      arith,
      ap (count j) e,
      count-append j child1 rest,
      ap (count j) e',
      count-append j child2 caller,
      ap (count j) last,
      a,
      b,
      width-suc left l j,
    )
