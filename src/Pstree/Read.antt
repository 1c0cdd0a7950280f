-- ===== src/Pstree/Read.antt =====
-- minilab/pstree, GetProcessids: what it stores.
use jyyos.Prelude.{
  ℕ, zero, suc, ◌<◌, ◌≤◌, ◌≡◌, ◌≢◌, refl, sym, ap, ◌∙◌, ◌⊎◌, inl, inr, append_assoc, append-nil,
  take, arith, Bool, true, false, not, ◌&&◌, leb, if◌then◌else◌, Bool-cases, Option-cases,
}
use jyyos.Prelude.{Option, none, some, List, [], ◌∷◌, ◌++◌, length, length-append}
use jyyos.Prelude.CText.{Bytes, fgets, fgets-rest, until_nul}
use jyyos.Pstree.{
  ProcessNode, max_processes, read_process, read_names, read_field, read_fields, is_empty,
}

take_all : (n : ℕ) (l : List ProcessNode) → length l ≤ n → take n l ≡ l
take_all zero [] h = refl
take_all zero (x ∷ l) h = absurd (omega arith)
take_all (suc n) [] h = refl
take_all (suc n) (x ∷ l) h = ap (λ t. x ∷ t) (take_all n l (omega arith))

take_exact : (n : ℕ) (a b : List ProcessNode) → length a ≡ n → take n (a ++ b) ≡ a
take_exact zero [] b h = refl
take_exact zero (x ∷ a) b h = absurd (omega arith)
take_exact (suc n) [] b h = absurd (omega arith)
take_exact (suc n) (x ∷ a) b h = ap (λ t. x ∷ t) (take_exact n a b (omega arith))

module _ (files : Bytes → Option Bytes) where
  abbrev taken : Option ProcessNode → List ProcessNode
  taken none = []
  taken (some p) = p ∷ []

  -- The processes of the names, in their order.
  abbrev pub processes : List Bytes → List ProcessNode
  processes [] = []
  processes (name ∷ names) = taken (read_process files name) ++ processes names

  read_names-some :
      (name : Bytes) (names : List Bytes) (tree : List ProcessNode) (p : ProcessNode)
      → read_process files name ≡ some p
      → read_names files (name ∷ names) tree ≡ (
          if leb max_processes (length (tree ++ p ∷ []))
          then tree ++ p ∷ []
          else read_names files names (tree ++ p ∷ []))
  unfolding read_names
  read_names-some name names tree p e = rw (read_names, e) refl

  read_names-none :
      (name : Bytes) (names : List Bytes) (tree : List ProcessNode)
      → read_process files name ≡ none
      → read_names files (name ∷ names) tree ≡ read_names files names tree
  unfolding read_names
  read_names-none name names tree e = rw (read_names, e) refl

  -- From fewer than 10000 processes on, the loop over /proc adds those of the names, in the order
  -- of the names, and keeps the first 10000: no process is written past the array.
  pub read_names-processes :
      (names : List Bytes) (tree : List ProcessNode)
      → length tree < max_processes
      → read_names files names tree ≡ take max_processes (tree ++ processes names)
  unfolding read_names
  read_names-processes [] tree room =
      sym (ap (take max_processes) (append-nil tree) ∙ take_all max_processes tree (omega arith))
  read_names-processes (name ∷ names) tree room = elim (Option-cases (read_process files name)) [
    | inl e ↦ read_names-none name names tree e ∙ read_names-processes names tree room ∙ rw e refl
    | inr (p, e) ↦
        let tree' = tree ++ p ∷ [] in
        let len = length-append tree (p ∷ []) in
        let whole : take max_processes (tree' ++ processes names)
            ≡ take max_processes (tree ++ processes (name ∷ names)) =
          rw (e, append_assoc tree (p ∷ []) (processes names)) refl in
        read_names-some name names tree p e ∙ elim (Bool-cases (leb max_processes (length tree'))) [
          | inl full ↦
              rw full (sym (take_exact max_processes tree' (processes names) (ground (arith, len))))
              ∙ whole
          | inr more ↦ rw more (read_names-processes names tree' (ground (arith, len))) ∙ whole
        ]
  ]

either-ne :
    (b : Bool) (x y : Option (Bytes × Bytes)) → x ≢ none → y ≢ none → (if b then x else y) ≢ none
either-ne true x y h k = h
either-ne false x y h k = k

-- Whatever a status file holds, the loop over its lines ends within one round more than it has
-- bytes.
read_fields-ne :
    (fuel : ℕ) (file : Bytes) (s : Bytes × Bytes)
    → length file < fuel
    → read_fields fuel file s ≢ none
unfolding read_fields
read_fields-ne zero file s enough = absurd (omega arith)
read_fields-ne (suc fuel) file s enough = elim (line_of (fgets 256 file)) [
  | inl e ↦ rw (read_fields, e) (λ k. cc)
  | inr (line, rest, e) ↦
      let s' = read_field (until_nul line) s in
      rw (read_fields, e)
        (either-ne (not (is_empty s'.0) && not (is_empty s'.1)) (some s') (read_fields fuel rest s')
          (λ k. cc) (read_fields-ne fuel rest s' (omega (arith, fgets-rest 254 file e, enough))))
]
  where
    line_of :
        (o : Option (Bytes × Bytes))
        → (o ≡ none) ⊎ (line : Bytes) × (rest : Bytes) × (o ≡ some (line, rest))
    line_of none = inl refl
    line_of (some (line, rest)) = inr (line, rest, refl)
