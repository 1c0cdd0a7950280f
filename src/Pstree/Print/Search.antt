-- ===== src/Pstree/Print/Search.antt =====
-- minilab/pstree: what FindProcessByPid and GetChildren find.
use jyyos.Prelude.{
  ◌≡◌, ◌≢◌, ◌↔◌, refl, sym, ap, ◌∙◌, subst, inl, inr, arith, Bool, true, false, ◌==◌, if◌then◌else◌,
  Bool-cases,
}
use jyyos.Prelude.{none, some, List, [], ◌∷◌}
use jyyos.Prelude.CText.{Bytes}
use mathlib.Core.List.{Memᴰ}
use mathlib.Core.List.Memᴰ
use jyyos.Pstree.{ProcessNode, same}
use jyyos.Pstree.Print.{find_process_by_pid, get_children, first_orphan}

-- P holds of each process of a list.
abbrev pub All : (ProcessNode → Type 0) → List ProcessNode → Type 0
All P [] = Unit {0}
All P (p ∷ ps) = P p × All P ps

same_eq : (a b : Bytes) → same a b ≡ true → a ≡ b
same_eq [] [] h = refl
same_eq [] (y ∷ b) h = cc
same_eq (x ∷ a) [] h = cc
same_eq (x ∷ a) (y ∷ b) h = elim (Bool-cases (x == y)) [
  | inl e ↦ ground (arith, same_eq a b)
  | inr e ↦ ground arith
]

-- A process of the list has the PID.
abbrev pub IsIn : List ProcessNode → Bytes → Type 0
IsIn tree pid = (p : ProcessNode) × Memᴰ p tree × (p.pid ≡ pid)

same_refl : (a : Bytes) → same a a ≡ true
same_refl [] = refl
same_refl (x ∷ a) = ground (arith, same_refl a)

if_true : {A : Type 0} (b : Bool) (x y : A) → b ≡ true → (if b then x else y) ≡ x
if_true b x y e = rw e refl

if_false : {A : Type 0} (b : Bool) (x y : A) → b ≡ false → (if b then x else y) ≡ y
if_false b x y e = rw e refl

same_of : (a b : Bytes) → a ≡ b → same a b ≢ false
same_of a b e d = let t = subst (λ c. same a c ≡ true) e (same_refl a) in cc

pub found_some :
    (tree : List ProcessNode) (pid : Bytes) (root : ProcessNode)
    → find_process_by_pid tree pid ≡ some root
    → Memᴰ root tree × (root.pid ≡ pid)
unfolding find_process_by_pid
found_some [] pid root e = cc
found_some (p ∷ tree) pid root e = elim (Bool-cases (same p.pid pid)) [
  | inl s ↦
      let here = sym (if_true (same p.pid pid) (some p) (find_process_by_pid tree pid) s) ∙ e in
      let first : p ≡ root = cc here in
      (Memᴰ.head (sym first), subst (λ q. q.pid ≡ pid) first (same_eq p.pid pid s))
  | inr d ↦
      let (m, h) =
        found_some tree pid root
          (sym (if_false (same p.pid pid) (some p) (find_process_by_pid tree pid) d) ∙ e) in
      (Memᴰ.tail m, h)
]

pub found_none :
    (tree : List ProcessNode) (pid : Bytes)
    → find_process_by_pid tree pid ≡ none
    → IsIn tree pid
    → ⊥
unfolding find_process_by_pid
found_none [] pid e (q, m, h) = Memᴰ.not-nil m
found_none (p ∷ tree) pid e (q, m, h) = elim (Bool-cases (same p.pid pid)) [
  | inl s ↦
      let here = sym (if_true (same p.pid pid) (some p) (find_process_by_pid tree pid) s) ∙ e in
      cc here
  | inr d ↦ elim (Memᴰ.cases_cons m) [
    | inl first ↦ absurd (same_of p.pid pid (subst (λ x. x.pid ≡ pid) first h) d)
    | inr later ↦
        found_none tree pid
          (sym (if_false (same p.pid pid) (some p) (find_process_by_pid tree pid) d) ∙ e)
          (q, later, h)
  ]
]

pub get_children-Mem :
    (tree : List ProcessNode) (parent : Bytes) (p : ProcessNode)
    → Memᴰ p (get_children tree parent) ↔ (Memᴰ p tree × (p.ppid ≡ parent))
unfolding get_children
get_children-Mem [] parent p = (λ m. absurd (Memᴰ.not-nil m), λ (m, e). m)
get_children-Mem (q ∷ tree) parent p =
    let rest = get_children tree parent in
    let (out, back) = get_children-Mem tree parent p in
    elim (Bool-cases (same q.ppid parent)) [
      | inl s ↦
          let is = if_true (same q.ppid parent) (q ∷ rest) rest s in
          (
            λ m. elim (Memᴰ.cases_cons (subst (Memᴰ p) is m)) [
              | inl e ↦ (Memᴰ.head e, ap (λ x. x.ppid) e ∙ same_eq q.ppid parent s)
              | inr m' ↦ (Memᴰ.tail (out m').0, (out m').1)
            ],
            λ (m, e). subst (Memᴰ p) (sym is) (elim (Memᴰ.cases_cons m) [
              | inl e' ↦ Memᴰ.head e'
              | inr m' ↦ Memᴰ.tail (back (m', e))
            ]),
          )
      | inr d ↦
          let is = if_false (same q.ppid parent) (q ∷ rest) rest d in
          (
            λ m. let r = out (subst (Memᴰ p) is m) in (Memᴰ.tail r.0, r.1),
            λ (m, e). subst (Memᴰ p) (sym is) (elim (Memᴰ.cases_cons m) [
              | inl e' ↦ absurd (same_of q.ppid parent (subst (λ x. x.ppid ≡ parent) e' e) d)
              | inr m' ↦ back (m', e)
            ]),
          )
    ]

pub All-Mem :
    (P : ProcessNode → Type 0) (ps : List ProcessNode) (p : ProcessNode)
    → All P ps
    → Memᴰ p ps
    → P p
All-Mem P [] p h m = absurd (Memᴰ.not-nil m)
All-Mem P (q ∷ ps) p (h, hs) m = elim (Memᴰ.cases_cons m) [
  | inl e ↦ subst P (sym e) h
  | inr m' ↦ All-Mem P ps p hs m'
]

pub first_orphan-some :
    (tree : List ProcessNode) (pid : Bytes)
    → first_orphan tree ≡ some pid
    → (p : ProcessNode) × Memᴰ p tree × (p.pid ≡ pid) × (p.ppid ≡ b'0' ∷ [])
first_orphan-some [] pid e = cc
first_orphan-some (p ∷ tree) pid e = elim (Bool-cases (same p.ppid (b'0' ∷ []))) [
  | inl s ↦
      let here = sym (if_true (same p.ppid (b'0' ∷ [])) (some p.pid) (first_orphan tree) s) ∙ e in
      (p, Memᴰ.head refl, cc here, same_eq p.ppid (b'0' ∷ []) s)
  | inr d ↦
      let (q, m, a, b) =
        first_orphan-some tree pid
          (sym (if_false (same p.ppid (b'0' ∷ [])) (some p.pid) (first_orphan tree) d) ∙ e) in
      (q, Memᴰ.tail m, a, b)
]

pub first_orphan-none :
    (tree : List ProcessNode) (p : ProcessNode)
    → first_orphan tree ≡ none
    → Memᴰ p tree
    → p.ppid ≢ b'0' ∷ []
first_orphan-none [] p e m h = Memᴰ.not-nil m
first_orphan-none (q ∷ tree) p e m h = elim (Bool-cases (same q.ppid (b'0' ∷ []))) [
  | inl s ↦
      let here = sym (if_true (same q.ppid (b'0' ∷ [])) (some q.pid) (first_orphan tree) s) ∙ e in
      cc here
  | inr d ↦ elim (Memᴰ.cases_cons m) [
    | inl first ↦ absurd (same_of q.ppid (b'0' ∷ []) (subst (λ x. x.ppid ≡ b'0' ∷ []) first h) d)
    | inr later ↦
        first_orphan-none tree p
          (sym (if_false (same q.ppid (b'0' ∷ [])) (some q.pid) (first_orphan tree) d) ∙ e) later h
  ]
]
