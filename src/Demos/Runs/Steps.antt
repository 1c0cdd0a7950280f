-- ===== src/Demos/Runs/Steps.antt =====
-- What a run goes on with behind each call.
use jyyos.Prelude.{
  ℕ, zero, suc, ◌+◌, ◌≡◌, refl, ap, ◌∙◌, inl, inr, Bool, true, false, List, [], ◌∷◌, ◌++◌, some,
  length, take, drop, get_or, set, if◌then◌else◌,
}
use jyyos.Prelude.Int.{ℤ, pos}
use jyyos.Prelude.CText.{Bytes}
use jyyos.Demos.{
  Call, getpid, getppid, wait, sleep, open_file, dup, write, read, close, Reply, Process, exit,
  print, fork, call,
}
use jyyos.Demos.Runs.{Disk, Table, overwrite, Does, nobody, child, Runs}

module _ {Out : Type 0} where
  -- A run of a process without a child, and of one that waits for its child.
  abbrev pub Alone : Disk → Process Out → Table → List Out → Type 0
  Alone d p t ls = (n : ℕ) × Runs n d p t nobody ls

  abbrev pub Waiting :
      Disk → (Reply → Process Out) → Table → Process Out → Table → List Out → Type 0
  Waiting d k t q t' ls = (n : ℕ) × Runs n d (call wait k) t (child q t') ls

  pub Alone-call :
      (c : Call) (k : Reply → Process Out) (d : Disk) (t : Table) (ls : List Out)
      → Alone d (call c k) t ls
      → (r : Reply) × (d' : Disk) × (t' : Table) × Does c d t r d' t' × Alone d' (k r) t' ls
  Alone-call c k d t ls (zero, h) = absurd h
  Alone-call c k d t ls (suc n, inr h) = absurd h
  Alone-call wait k d t ls (suc n, inl (r, d', t', never, h)) = absurd never
  Alone-call getpid k d t ls (suc n, inl (r, d', t', does, h)) = (r, d', t', does, (n, h))
  Alone-call getppid k d t ls (suc n, inl (r, d', t', does, h)) = (r, d', t', does, (n, h))
  Alone-call (sleep s) k d t ls (suc n, inl (r, d', t', does, h)) = (r, d', t', does, (n, h))
  Alone-call (open_file a b) k d t ls (suc n, inl (r, d', t', does, h)) = (r, d', t', does, (n, h))
  Alone-call (dup a) k d t ls (suc n, inl (r, d', t', does, h)) = (r, d', t', does, (n, h))
  Alone-call (write a b) k d t ls (suc n, inl (r, d', t', does, h)) = (r, d', t', does, (n, h))
  Alone-call (read a b) k d t ls (suc n, inl (r, d', t', does, h)) = (r, d', t', does, (n, h))
  Alone-call (close a) k d t ls (suc n, inl (r, d', t', does, h)) = (r, d', t', does, (n, h))

  pub Alone-print :
      (o : Out) (p : Process Out) (d : Disk) (t : Table) (ls : List Out)
      → Alone d (print o p) t ls
      → (rest : List Out) × (ls ≡ o ∷ rest) × Alone d p t rest
  Alone-print o p d t ls (zero, h) = absurd h
  Alone-print o p d t ls (suc n, inl (rest, e, h)) = (rest, e, (n, h))
  Alone-print o p d t ls (suc n, inr h) = absurd h

  pub Alone-exit :
      (code : ℕ) (d : Disk) (t : Table) (ls : List Out) → Alone d (exit code) t ls → ls ≡ []
  Alone-exit code d t ls (zero, e) = e
  Alone-exit code d t ls (suc n, inl h) = absurd h
  Alone-exit code d t ls (suc n, inr h) = absurd h

  pub Alone-if :
      (b : Bool) (p q : Process Out) (d : Disk) (t : Table) (ls : List Out)
      → b ≡ false
      → Alone d (if b then p else q) t ls
      → Alone d q t ls
  Alone-if true p q d t ls e h = cc
  Alone-if false p q d t ls e h = h

  pub Waiting-call :
      (c : Call) (l : Reply → Process Out) (d : Disk) (k : Reply → Process Out) (t t' : Table)
      (ls : List Out)
      → Waiting d k t (call c l) t' ls
      → (r : Reply) × (d' : Disk) × (t'' : Table) × Does c d t' r d' t''
        × Waiting d' k t (l r) t'' ls
  Waiting-call c l d k t t' ls (zero, h) = absurd h
  Waiting-call c l d k t t' ls (suc n, inl (r, d', t'', never, h)) = absurd never
  Waiting-call c l d k t t' ls (suc n, inr (r, d', t'', does, h)) = (r, d', t'', does, (n, h))

  pub Waiting-exit :
      (code : ℕ) (d : Disk) (k : Reply → Process Out) (t t' : Table) (ls : List Out)
      → Waiting d k t (exit code) t' ls
      → (r : Reply) × Alone d (k r) t ls
  Waiting-exit code d k t t' ls (zero, h) = absurd h
  Waiting-exit code d k t t' ls (suc n, inl (r, h)) = (r, (n, h))
  Waiting-exit code d k t t' ls (suc n, inr h) = absurd h

  -- fork, of a process that waits at once.
  pub Alone-fork :
      (f : ℤ → Process Out) (d : Disk) (t : Table) (ls : List Out)
      → Alone d (fork f) t ls
      → (pid : ℕ) × (n : ℕ) × Runs n d (f (pos (suc pid))) t (child (f (pos 0)) t) ls
  Alone-fork f d t ls (zero, h) = absurd h
  Alone-fork f d t ls (suc n, inl (pid, h)) = (pid, n, h)
  Alone-fork f d t ls (suc n, inr h) = absurd h

-- A disk whose last open file has the offset o.
abbrev pub disk : Bytes → List ℕ → ℕ → Disk
disk file offsets o = record { file = file; offsets = offsets ++ o ∷ [] }

get_or-last : (xs : List ℕ) (v : ℕ) → get_or (xs ++ v ∷ []) (length xs) 0 ≡ v
get_or-last [] v = refl
get_or-last (x ∷ xs) v = get_or-last xs v

set-last : (xs : List ℕ) (v w : ℕ) → set (xs ++ v ∷ []) (length xs) w ≡ xs ++ w ∷ []
set-last [] v w = refl
set-last (x ∷ xs) v w = ap (λ l. x ∷ l) (set-last xs v w)

-- A write and a read through the last open file.
pub write-disk :
    (fd : ℕ) (s file : Bytes) (os : List ℕ) (o : ℕ) (t : Table) (r : Reply) (d' : Disk) (t' : Table)
    → t fd ≡ some (length os)
    → Does (write fd s) (disk file os o) t r d' t'
    → (d' ≡ disk (overwrite file o s) os (o + length s)) × (t' ≡ t)
write-disk fd s file os o t r d' t' there (h, at, same, e) =
    let last : h ≡ length os = cc in
    (
      e
          ∙ ap
              (λ i. record {
                file = overwrite file (get_or (os ++ o ∷ []) i 0) s;
                offsets = set (os ++ o ∷ []) i (get_or (os ++ o ∷ []) i 0 + length s);
              })
              last
          ∙ rw (get_or-last os o, set-last os o (o + length s)) refl,
      same,
    )

pub read-disk :
    (fd n : ℕ) (file : Bytes) (os : List ℕ) (o : ℕ) (t : Table) (r : Reply) (d' : Disk) (t' : Table)
    → t fd ≡ some (length os)
    → Does (read fd n) (disk file os o) t r d' t'
    → (r.bytes ≡ take n (drop o file)) × (d'.file ≡ file)
read-disk fd n file os o t r d' t' there (h, at, same, got, e) =
    let last : h ≡ length os = cc in
    (
      got
          ∙ ap (λ i. take n (drop (get_or (os ++ o ∷ []) i 0) file)) last
          ∙ ap (λ i. take n (drop i file)) (get_or-last os o),
      ap (λ x. x.file) e,
    )
