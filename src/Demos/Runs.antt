-- ===== src/Demos/Runs.antt =====
-- fd-offset.c and fd-alloc.c: the runs of a process and its child on one file, step by step, as
-- POSIX documents the calls: an open file has an offset, which the descriptors share that dup and
-- fork copy.
pub mod Steps
pub mod Opens
use jyyos.Prelude.{
  ℕ, zero, suc, ◌+◌, ◌<◌, ◌≡◌, ◌⊎◌, List, [], ◌∷◌, ◌++◌, Option, none, some, length, take, drop,
  get_or, set, if◌then◌else◌, ◌==◌,
}
use jyyos.Prelude.Int.{ℤ, pos}
use jyyos.Prelude.CText.{Bytes}
use jyyos.Prelude.Table.{put, clear, LowestFree}
use jyyos.Demos.{
  Call, getpid, getppid, wait, sleep, open_file, dup, write, read, close, Reply, Process, exit,
  print, fork, call, stuck,
}
use jyyos.Demos.{create_empty}

-- The bytes of sample.txt, and the offset of each open file.
pub record Disk : Type 0 where
  pub file : Bytes
  pub offsets : List ℕ

-- The open files of a process, by descriptor.
abbrev pub Table : Type 0
Table = ℕ → Option ℕ

-- The bytes with some written over them from an offset on.
abbrev pub overwrite : Bytes → ℕ → Bytes → Bytes
overwrite file o s = take o file ++ (s ++ drop (o + length s) file)

-- A call that succeeds, with its reply and what it leaves.
abbrev pub Does : Call → Disk → Table → Reply → Disk → Table → Type 0
Does (open_file path flags) d t r d' t' =
    (n : ℕ) × LowestFree t n
    × (r.value ≡ pos n)
    × (t' ≡ put t n (length d.offsets))
    × (d' ≡ record {
      file = if flags == create_empty then [] else d.file;
      offsets = d.offsets ++ 0 ∷ [];
    })
Does (dup fd) d t r d' t' =
    (n : ℕ) × (h : ℕ) × (t fd ≡ some h)
    × LowestFree t n
    × (r.value ≡ pos n)
    × (t' ≡ put t n h)
    × (d' ≡ d)
Does (write fd s) d t r d' t' =
    (h : ℕ) × (t fd ≡ some h)
    × (t' ≡ t)
    × (d' ≡ record {
      file = overwrite d.file (get_or d.offsets h 0) s;
      offsets = set d.offsets h (get_or d.offsets h 0 + length s);
    })
Does (read fd n) d t r d' t' =
    (h : ℕ) × (t fd ≡ some h)
    × (t' ≡ t)
    × (r.bytes ≡ take n (drop (get_or d.offsets h 0) d.file))
    × (d' ≡ record d { offsets = set d.offsets h (get_or d.offsets h 0 + length r.bytes) })
Does (close fd) d t r d' t' = (t' ≡ clear t fd) × (d' ≡ d)
Does getpid d t r d' t' = (t' ≡ t) × (d' ≡ d)
Does getppid d t r d' t' = (t' ≡ t) × (d' ≡ d)
Does (sleep n) d t r d' t' = (t' ≡ t) × (d' ≡ d)
Does wait d t r d' t' = ⊥

-- The child that a process has, with its descriptors.
pub data Child (Out : Type 0) : Type 0 where
  nobody : Child Out
  child : Process Out → Table → Child Out

-- What follows a step: a run of the remaining steps.
abbrev Next : Type 0 → Type 1
Next Out = Disk → Process Out → Table → Child Out → List Out → Type 0

module _ {Out : Type 0} where
  -- The process steps: it waits until its child has ended, and has one child at a time.
  abbrev pub ParentStep : Next Out → Next Out
  ParentStep next d (exit code) t q ls = ⊥
  ParentStep next d stuck t q ls = ⊥
  ParentStep next d (print o p) t q ls = (rest : List Out) × (ls ≡ o ∷ rest) × next d p t q rest
  ParentStep next d (fork k) t (child q t') ls = ⊥
  ParentStep next d (fork k) t nobody ls =
      (pid : ℕ) × next d (k (pos (suc pid))) t (child (k (pos 0)) t) ls
  ParentStep next d (call wait k) t (child (exit code) t') ls =
      (r : Reply) × next d (k r) t nobody ls
  ParentStep next d (call c k) t q ls =
      (r : Reply) × (d' : Disk) × (t' : Table) × Does c d t r d' t' × next d' (k r) t' q ls

  -- The child steps.
  abbrev pub ChildStep : Next Out → Next Out
  ChildStep next d p t nobody ls = ⊥
  ChildStep next d p t (child (exit code) t') ls = ⊥
  ChildStep next d p t (child stuck t') ls = ⊥
  ChildStep next d p t (child (fork k) t') ls = ⊥
  ChildStep next d p t (child (print o q) t') ls =
      (rest : List Out) × (ls ≡ o ∷ rest) × next d p t (child q t') rest
  ChildStep next d p t (child (call c k) t') ls =
      (r : Reply) × (d' : Disk) × (t'' : Table) × Does c d t' r d' t''
      × next d' p t (child (k r) t'') ls

  -- A run of n steps, of the process or of its child, that ends with both and prints these lines on
  -- a terminal.
  abbrev pub Runs : ℕ → Next Out
  Runs zero d (exit code) t nobody ls = ls ≡ []
  Runs zero d (exit code) t (child (exit code') t') ls = ls ≡ []
  Runs zero d p t q ls = ⊥
  Runs (suc n) d p t q ls = ParentStep (Runs n) d p t q ls ⊎ ChildStep (Runs n) d p t q ls
