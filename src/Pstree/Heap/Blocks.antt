-- ===== src/Pstree/Heap/Blocks.antt =====
-- minilab/pstree: blocks on the heap, and what FreeProcessTree frees of them.
use jyyos.Prelude.{
  ℕ, false, ◌<◌, ◌≡◌, refl, sym, ◌∙◌, ap, subst, fun_ext, none, some, List, [], ◌∷◌, length, inl,
  inr, Option-cases, Bool-cases, lt→ltb, ==_iff, ◌==◌, arith,
}
use jyyos.Prelude.CText.{Bytes}
use jyyos.Prelude.Table.{put, clear}
use jyyos.Pstree.Heap.{Heap, got, Node, release, free_process_tree, store_text}

pub put_self : (h : Heap) (p n : ℕ) → put h p n p ≡ some n
put_self h p n = rw ((==_iff p p).1 refl) refl

put_other : (h : Heap) (p n q : ℕ) → (q == p) ≡ false → put h p n q ≡ h q
put_other h p n q e = rw e refl

clear_self : (h : Heap) (p : ℕ) → clear h p p ≡ none
clear_self h p = rw ((==_iff p p).1 refl) refl

clear_other : (h : Heap) (p q : ℕ) → (q == p) ≡ false → clear h p q ≡ h q
clear_other h p q e = rw e refl

release_lem : (h : Heap) (p n : ℕ) → h p ≡ some n → release p h ≡ got (clear h p)
release_lem h p n e = rw (release, e) refl

-- A live block is not a fresh one.
differs : (h : Heap) (p q n : ℕ) → h p ≡ none → h q ≡ some n → (q == p) ≡ false
differs h p q n free used = elim (Bool-cases (q == p)) [
  | inl e ↦ let y = sym used ∙ ap h ((==_iff q p).0 e) ∙ free in absurd (cc)
  | inr f ↦ f
]

-- Every block of h is one of h'.
abbrev pub Grows : Heap → Heap → Type 0
Grows h h' = (q n : ℕ) → h q ≡ some n → h' q ≡ some n

-- The blocks of g that are also in use in h.
abbrev shared : Heap → Heap → Heap
shared h g q = elim (h q) [ none ↦ none | some n ↦ g q ]

-- FreeProcessTree takes from a heap what h' has beyond h, whatever the blocks of h are by then.
abbrev pub FreesBeyond : Heap → Heap → List Node → Type 0
FreesBeyond h h' nodes =
    (g : Heap) (array : ℕ)
    → ((q : ℕ) → h q ≡ none → g q ≡ h' q)
    → free_process_tree nodes array g ≡ release array (shared h g)

pub put-Grows : (h : Heap) (p n : ℕ) → h p ≡ none → Grows h (put h p n)
put-Grows h p n fresh q k e = put_other h p n q (differs h p q k fresh e) ∙ e

before : (h h' : Heap) (q : ℕ) → Grows h h' → h' q ≡ none → h q ≡ none
before h h' q grows e = elim (Option-cases (h q)) [
  | inl f ↦ f
  | inr (n, f) ↦ let y = sym (grows q n f) ∙ e in absurd (cc)
]

flip : (a b : ℕ) → (a == b) ≡ false → (b == a) ≡ false
flip a b e = ground arith

pub store_text-got :
    (s : Bytes) (p n : ℕ) (h : Heap) → h p ≡ some n → length s < n → store_text s (some p) h ≡ got p
unfolding store_text
store_text-got s p n h e room = rw (store_text, e, lt→ltb (length s) n room) refl

-- Two new blocks.
pub record Adds (h : Heap) (n : Node) (h' : Heap) : Type 0 where
  pub size : ℕ
  pub size' : ℕ
  pub new : h n.pid ≡ none
  pub new' : put h n.pid size n.ppid ≡ none
  pub made : h' ≡ put (put h n.pid size) n.ppid size'

-- Two blocks are freed from a heap where they are in use.
free_two :
    (g : Heap) (n : Node) (nodes : List Node) (array k k' : ℕ)
    → g n.pid ≡ some k
    → g n.ppid ≡ some k'
    → (n.ppid == n.pid) ≡ false
    → free_process_tree (n ∷ nodes) array g
      ≡ free_process_tree nodes array (clear (clear g n.pid) n.ppid)
unfolding free_process_tree
free_two g n nodes array k k' e e' d =
    let e'' = clear_other g n.pid n.ppid d ∙ e' in
    rw (release_lem g n.pid k e, release_lem (clear g n.pid) n.ppid k' e'') refl

module _ (h h₁ h₂ : Heap) (n : Node) (a : Adds h n h₁) where
  abbrev first : Heap
  first = put h n.pid a.size

  here : first n.pid ≡ some a.size
  here = put_self h n.pid a.size

  pub Adds-Grows : Grows h h₁
  Adds-Grows q k e =
      subst (λ x. x q ≡ some k) (sym a.made)
        (put-Grows first n.ppid a.size' a.new' q k (put-Grows h n.pid a.size a.new q k e))

  -- The two blocks are in use, and not one.
  pid_used : h₁ n.pid ≡ some a.size
  pid_used =
      subst (λ x. x n.pid ≡ some a.size) (sym a.made)
        (put-Grows first n.ppid a.size' a.new' n.pid a.size here)

  ppid_used : h₁ n.ppid ≡ some a.size'
  ppid_used = subst (λ x. x n.ppid ≡ some a.size') (sym a.made) (put_self first n.ppid a.size')

  apart : (n.ppid == n.pid) ≡ false
  apart = flip _ _ (differs first n.ppid n.pid a.size a.new' here)

  ppid_new : h n.ppid ≡ none
  ppid_new = before h first n.ppid (put-Grows h n.pid a.size a.new) a.new'

  two_cleared :
      (g : Heap) (q : ℕ)
      → (q == n.pid) ≡ false
      → (q == n.ppid) ≡ false
      → clear (clear g n.pid) n.ppid q ≡ g q
  two_cleared g q e e' = clear_other (clear g n.pid) n.ppid q e' ∙ clear_other g n.pid q e

  two_gone :
      (g : Heap) (q k : ℕ) → h q ≡ none → h₁ q ≡ some k → clear (clear g n.pid) n.ppid q ≡ none
  two_gone g q k e used = elim (Bool-cases (q == n.ppid)) [
    | inl same ↦ rw same refl
    | inr other ↦ elim (Bool-cases (q == n.pid)) [
      | inl same ↦ rw (other, same) refl
      | inr other' ↦
          let y =
            sym used
            ∙ ap (λ x. x q) a.made
            ∙ put_other first n.ppid a.size' q other
            ∙ put_other h n.pid a.size q other'
            ∙ e in
          absurd (cc)
    ]
  ]

  same_shared : (g : Heap) (q : ℕ) → shared h₁ (clear (clear g n.pid) n.ppid) q ≡ shared h g q
  same_shared g q = elim (Option-cases (h q)) [
    | inr (k, e) ↦
        rw (shared, Adds-Grows q k e, e)
          (two_cleared g q (differs h n.pid q k a.new e) (differs h n.ppid q k ppid_new e))
    | inl e ↦ elim (Option-cases (h₁ q)) [
      | inl f ↦ rw (shared, e, f) refl
      | inr (k, f) ↦ rw (shared, e, f) (two_gone g q k e f)
    ]
  ]

  pub Adds-frees :
      (nodes : List Node) → Grows h₁ h₂ → FreesBeyond h₁ h₂ nodes → FreesBeyond h h₂ (n ∷ nodes)
  Adds-frees nodes grows frees g array agree =
      let g₂ = clear (clear g n.pid) n.ppid in
      free_two g n nodes array a.size a.size' (agree n.pid a.new ∙ grows n.pid a.size pid_used)
        (agree n.ppid ppid_new ∙ grows n.ppid a.size' ppid_used) apart
      ∙ frees g₂ array agrees
      ∙ ap (release array) (fun_ext (same_shared g))
    where
      agrees : (q : ℕ) → h₁ q ≡ none → clear (clear g n.pid) n.ppid q ≡ h₂ q
      agrees q e =
          two_cleared g q (flip _ _ (differs h₁ q n.pid a.size e pid_used))
            (flip _ _ (differs h₁ q n.ppid a.size' e ppid_used))
          ∙ agree q (before h h₁ q Adds-Grows e)

pub nothing_beyond : (h : Heap) → FreesBeyond h h []
unfolding free_process_tree
nothing_beyond h g array agree = ap (release array) (fun_ext unchanged)
  where
    unchanged : (q : ℕ) → g q ≡ shared h g q
    unchanged q = elim (Option-cases (h q)) [
      | inl e ↦ rw (shared, e) (agree q e ∙ e)
      | inr (k, e) ↦ rw (shared, e) refl
    ]

shared_self : (h h' : Heap) → Grows h h' → shared h h' ≡ h
shared_self h h' grows = fun_ext λ q. elim (Option-cases (h q)) [
  | inl e ↦ rw (shared, e) refl
  | inr (k, e) ↦ rw (shared, e) (grows q k e)
]

clear-put : (h : Heap) (p n : ℕ) → h p ≡ none → clear (put h p n) p ≡ h
clear-put h p n new = fun_ext λ q. elim (Bool-cases (q == p)) [
  | inl e ↦ rw e (sym (ap h ((==_iff q p).0 e) ∙ new))
  | inr f ↦ rw f refl
]

-- With the array in use and then the rest, all is freed but the old blocks.
pub frees_all :
    (h h' : Heap) (a n : ℕ) (nodes : List Node)
    → h a ≡ none
    → Grows (put h a n) h'
    → FreesBeyond (put h a n) h' nodes
    → free_process_tree nodes a h' ≡ got h
frees_all h h' a n nodes new grows frees =
    frees h' a (λ q e. refl)
    ∙ ap (release a) (shared_self (put h a n) h' grows)
    ∙ release_lem (put h a n) a n (put_self h a n)
    ∙ ap got (clear-put h a n new)
