-- ===== src/Demos/Offset/Content.antt =====
-- fd-offset.c: what the two demonstrations find in the file.
use jyyos.Prelude.{
  ℕ, suc, ◌+◌, ◌≡◌, refl, sym, ap, ◌∙◌, subst, arith, false, List, [], ◌∷◌, none, some, length,
  take, if◌then◌else◌, ◌==◌,
}
use jyyos.Prelude.Int.{is_neg, to_ℕ}
use jyyos.Prelude.CText.{Bytes, until_nul}
use jyyos.Prelude.Table.{put, clear}
use jyyos.Demos.{open_file, dup, write, read, close, Process, exit, print, call, then_do}
use jyyos.Demos.{create_empty, read_only}
use jyyos.Demos.Offset.{
  Line, content, content_after_fork, sample, demo_dup_offset, demo_fork_offset, main,
}
use jyyos.Demos.Runs.{Disk, Table, overwrite, Child, nobody, Runs}
use jyyos.Demos.Runs.Opens.{put-at, put-ne, not_neg, Alone-to, opened, closed}
use jyyos.Demos.Runs.Steps.{
  Alone, Alone-call, Alone-print, Alone-exit, Alone-if, Alone-fork, Waiting-call, Waiting-exit,
  disk, write-disk, read-disk,
}

written :
    (fd : ℕ) (s : Bytes) (p : Process Line) (file : Bytes) (os : List ℕ) (o : ℕ) (t : Table)
    (ls : List Line)
    → t fd ≡ some (length os)
    → Alone (disk file os o) (then_do (write fd s) p) t ls
    → Alone (disk (overwrite file o s) os (o + length s)) p t ls
written fd s p file os o t ls there h =
    let (r, d', t', does, h') = Alone-call (write fd s) (λ _. p) (disk file os o) t ls h in
    let (ed, et) = write-disk fd s file os o t r d' t' there does in Alone-to d' _ t' t ed et h'

-- The end of both demonstrations: the file is opened sample again, and its first two bytes are
-- shown.
module _ (line : Bytes → Line) (rest : Process Line) where
  abbrev show_file : Process Line
  show_file = call (open_file sample read_only) λ r.
      if is_neg r.value
      then exit 1
      else call (read (to_ℕ r.value) 2)
          λ got. print (line (until_nul got.bytes)) (then_do (close (to_ℕ r.value)) rest)

  shown :
      (d : Disk) (t : Table) (ls : List Line)
      → Alone d show_file t ls
      → (d' : Disk) × (t' : Table) × (more : List Line) × (ls
          ≡ line (until_nul (take 2 d.file)) ∷ more)
        × Alone d' rest t' more
  shown d t ls h =
      let (r, low, h1) = opened sample read_only (exit 1) _ d t ls h in
      let fd = to_ℕ r.value in
      let t1 = put t fd (length d.offsets) in
      let (got, d2, t2, does, h2) = Alone-call (read fd 2) _ (disk d.file d.offsets 0) t1 ls h1 in
      let (bytes, same) =
        read-disk fd 2 d.file d.offsets 0 t1 got d2 t2 (put-at t fd (length d.offsets)) does in
      let (more, e, h3) = Alone-print _ _ d2 t2 ls h2 in
      (
        d2,
        clear t2 fd,
        more,
        e ∙ ap (λ b. line (until_nul b) ∷ more) bytes,
        closed fd rest d2 t2 more h3,
      )

dup_offset-content :
    (rest : Process Line) (d : Disk) (t : Table) (ls : List Line)
    → Alone d (demo_dup_offset rest) t ls
    → (d' : Disk) × (t' : Table) × (more : List Line) × (ls ≡ content (b'A' ∷ b'B' ∷ []) ∷ more)
      × Alone d' rest t' more
unfolding demo_dup_offset until_nul
dup_offset-content rest d t ls h =
    let (r1, low1, h1) = opened sample create_empty (exit 1) _ d t ls h in
    let fd1 = to_ℕ r1.value in
    let last = length d.offsets in
    let t1 = put t fd1 last in
    let (r2, d2, t2, (n, shared, at1, low, value, et, ed), h2) =
      Alone-call (dup fd1) _ (disk [] d.offsets 0) t1 ls h1 in
    let (some_fd, is_fd) = not_neg r2.value n value in
    let fd2 = to_ℕ r2.value in
    let free2 : t1 fd2 ≡ none = subst (λ m. t1 m ≡ none) (sym is_fd) low.0 in
    let same : shared ≡ last = cc (at1, put-at t fd1 last) in
    let t3 = put t1 fd2 last in
    let et3 : t2 ≡ t3 = et ∙ ap (λ m. put t1 m shared) (sym is_fd) ∙ ap (put t1 fd2) same in
    let h3 =
      Alone-to d2 (disk [] d.offsets 0) t2 t3 ed et3
        (Alone-if (is_neg r2.value) _ _ d2 t2 ls some_fd h2) in
    let both = put-ne t1 fd2 fd1 last last (put-at t fd1 last) free2 in
    let h4 = written fd1 (b'A' ∷ []) _ [] d.offsets 0 t3 ls both h3 in
    let h5 = written fd2 (b'B' ∷ []) _ (b'A' ∷ []) d.offsets 1 t3 ls (put-at t1 fd2 last) h4 in
    let h6 = closed fd1 _ _ t3 ls h5 in
    let h7 = closed fd2 _ _ (clear t3 fd1) ls h6 in
    shown content rest (disk (b'A' ∷ b'B' ∷ []) d.offsets 2) (clear (clear t3 fd1) fd2) ls h7

-- The parent's side of a test for the child.
parent_side :
    (pid n : ℕ) (p q : Process Line) (d : Disk) (t : Table) (c : Child Line) (ls : List Line)
    → Runs n d (if suc pid == 0 then p else q) t c ls
    → Runs n d q t c ls
parent_side pid n p q d t c ls h =
    let parent : (suc pid == 0) ≡ false = ground arith in rw parent at h

fork_offset-content :
    (rest : Process Line) (d : Disk) (t : Table) (ls : List Line)
    → Alone d (demo_fork_offset rest) t ls
    → (d' : Disk) × (t' : Table) × (more : List Line) × (ls
        ≡ content_after_fork (b'D' ∷ b'C' ∷ []) ∷ more)
      × Alone d' rest t' more
unfolding demo_fork_offset until_nul
fork_offset-content rest d t ls h =
    let (r1, low1, h1) = opened sample create_empty (exit 1) _ d t ls h in
    let fd = to_ℕ r1.value in
    let last = length d.offsets in
    let t1 = put t fd last in
    let here = put-at t fd last in
    let (pid, n, h2) = Alone-fork _ (disk [] d.offsets 0) t1 ls h1 in
    let (w, d3, t3, does3, h3) =
      Waiting-call (write fd (b'D' ∷ [])) _ (disk [] d.offsets 0) _ t1 t1 ls
        (n, parent_side pid n _ _ (disk [] d.offsets 0) t1 _ ls h2) in
    let (ed3, et3) = write-disk fd (b'D' ∷ []) [] d.offsets 0 t1 w d3 t3 here does3 in
    let (c, d4, t4, (et4, ed4), h4) = Waiting-call (close fd) _ d3 _ t1 t3 ls h3 in
    let (r, h5) = Waiting-exit 0 d4 _ t1 t4 ls h4 in
    let h6 = Alone-to d4 (disk (b'D' ∷ []) d.offsets 1) t1 t1 (ed4 ∙ ed3) refl h5 in
    let h7 = written fd (b'C' ∷ []) _ (b'D' ∷ []) d.offsets 1 t1 ls here h6 in
    let h8 = closed fd _ _ t1 ls h7 in
    shown content_after_fork rest (disk (b'D' ∷ b'C' ∷ []) d.offsets 2) (clear t1 fd) ls h8

-- For any disk and descriptors at the start, every run of main in which no call fails prints to the
-- terminal that the file holds "AB" behind dup, and "DC" behind fork: the two descriptors share an
-- offset, and the parent writes behind its child.
pub main-content :
    (n : ℕ) (d : Disk) (t : Table) (ls : List Line)
    → Runs n d main t nobody ls
    → ls ≡ content (b'A' ∷ b'B' ∷ []) ∷ content_after_fork (b'D' ∷ b'C' ∷ []) ∷ []
unfolding main
main-content n d t ls h =
    let (d1, t1, more, e, h1) = dup_offset-content (demo_fork_offset (exit 0)) d t ls (n, h) in
    let (d2, t2, rest, e', h2) = fork_offset-content (exit 0) d1 t1 more h1 in
    let over = Alone-exit 0 d2 t2 rest h2 in cc
