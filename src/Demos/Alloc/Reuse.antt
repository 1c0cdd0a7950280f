-- ===== src/Demos/Alloc/Reuse.antt =====
-- fd-alloc.c: a descriptor that is closed is given out again.
use jyyos.Prelude.{
  ℕ, zero, suc, ◌+◌, ◌<◌, ◌≤◌, ◌≡◌, refl, sym, ap, ◌∙◌, subst, arith, List, [], ◌∷◌, ◌++◌,
  append_assoc, append-nil, length, length-append, get_or, set,
}
use jyyos.Prelude.Int.{to_ℕ}
use jyyos.Prelude.Table.{put, clear}
use jyyos.Demos.{Process, exit}
use jyyos.Demos.Alloc.{
  Line, allocated, closed, reallocated, null_device, read_write, allocate, close_odd, reopen_odd,
  close_all, demo_fd_allocation,
}
use jyyos.Demos.Runs.{Disk, Table, nobody, Runs}
use jyyos.Demos.Alloc.GivenOut.{
  fd_at, GivenOut, get_or-append_length, GivenOut-append, Holes, Holes-start, Holes-clear,
  lowest_hole, Holes-put,
}
use jyyos.Demos.Runs.Steps.{Alone, Alone-print, Alone-exit, disk}
use jyyos.Demos.Runs.Opens
use jyyos.Demos.Runs.Opens.{opened}

-- The lines of a loop from i on, by its step.
abbrev pub each_line : (ℕ → ℕ → Line) → ℕ → ℕ → ℕ → List ℕ → List Line
each_line f step zero i fds = []
each_line f step (suc left) i fds = f i (get_or fds i 0) ∷ each_line f step left (i + step) fds

append_length : (xs ys : List ℕ) (n : ℕ) → (xs ++ n ∷ []) ++ ys ≡ xs ++ n ∷ ys
append_length xs ys n = append_assoc xs (n ∷ []) ys

set-get_or : (xs : List ℕ) (i : ℕ) → i < length xs → set xs i (get_or xs i 0) ≡ xs
set-get_or [] i h = absurd (omega arith)
set-get_or (x ∷ xs) zero h = refl
set-get_or (x ∷ xs) (suc i) h = ap (λ l. x ∷ l) (set-get_or xs i (omega arith))

-- What the loops show, and what they go on with.
allocate-GivenOut :
    (left i : ℕ) (fds : List ℕ) (rest : List ℕ → Process Line) (d : Disk) (t : Table)
    (ls : List Line)
    → i ≡ length fds
    → GivenOut t fds
    → Alone d (allocate left i fds rest) t ls
    → (new : List ℕ) × (d' : Disk) × (t' : Table) × (more : List Line) × (length new ≡ left)
      × GivenOut t' (fds ++ new)
      × (ls ≡ each_line allocated 1 left i (fds ++ new) ++ more)
      × Alone d' (rest (fds ++ new)) t' more
unfolding allocate
allocate-GivenOut zero i fds rest d t ls e g h =
    let whole = append-nil fds in
    (
      [],
      d,
      t,
      ls,
      refl,
      subst (GivenOut t) (sym whole) g,
      refl,
      subst (λ l. Alone d (rest l) t ls) (sym whole) h,
    )
allocate-GivenOut (suc left) i fds rest d t ls e g h =
    let (r, low, h1) = opened null_device read_write (exit 1) _ d t ls h in
    let n = to_ℕ r.value in
    let t1 = put t n (length d.offsets) in
    let (ls1, e1, h2) = Alone-print _ _ _ t1 ls h1 in
    let (new, d', t', more, len, g', e2, h3) =
      allocate-GivenOut left (i + 1) (fds ++ n ∷ []) rest _ t1 ls1
        (omega (arith, length-append fds (n ∷ [])))
        (GivenOut-append t fds n (length d.offsets) g low) h2 in
    let whole = append_length fds new n in
    let here : n ≡ fd_at (fds ++ n ∷ new) i =
      sym (ap (fd_at (fds ++ n ∷ new)) e ∙ get_or-append_length fds n new) in
    (
      n ∷ new,
      d',
      t',
      more,
      omega (arith, len),
      subst (GivenOut t') whole g',
      e1
          ∙ ap (λ l. allocated i n ∷ l) e2
          ∙ ap (λ l. allocated i n ∷ (each_line allocated 1 left (i + 1) l ++ more)) whole
          ∙ ap (λ x. allocated i x ∷ (each_line allocated 1 left (i + 1) (fds ++ n ∷ new) ++ more))
              here,
      subst (λ l. Alone d' (rest l) t' more) whole h3,
    )

close_odd-Holes :
    (left k i : ℕ) (fds : List ℕ) (rest : Process Line) (d : Disk) (T t : Table) (ls : List Line)
    → i ≡ suc (k + k)
    → Holes T t fds 0 k
    → Alone d (close_odd left i fds rest) t ls
    → (t' : Table) × (more : List Line) × Holes T t' fds 0 (k + left)
      × (ls ≡ each_line closed 2 left i fds ++ more)
      × Alone d rest t' more
unfolding close_odd
close_odd-Holes zero k i fds rest d T t ls e holes h =
    let same : k ≡ k + 0 = omega arith in (t, ls, subst (Holes T t fds 0) same holes, refl, h)
close_odd-Holes (suc left) k i fds rest d T t ls e holes h =
    let fd = fd_at fds i in
    let h1 = Opens.closed fd _ d t ls h in
    let (ls1, e1, h2) = Alone-print _ _ d (clear t fd) ls h1 in
    let next : Holes T (clear t fd) fds 0 (suc k) =
      subst (λ j. Holes T (clear t (fd_at fds j)) fds 0 (suc k)) (sym e)
        (Holes-clear T t fds k holes) in
    let (t', more, holes', e2, h3) =
      close_odd-Holes left (suc k) (i + 2) fds rest d T (clear t fd) ls1 (omega arith) next h2 in
    let same : suc k + left ≡ k + suc left = omega arith in
    (t', more, subst (Holes T t' fds 0) same holes', e1 ∙ ap (λ l. closed i fd ∷ l) e2, h3)

reopen_odd-same :
    (left k b i : ℕ) (fds : List ℕ) (rest : List ℕ → Process Line) (d : Disk) (T t : Table)
    (ls : List Line)
    → i ≡ suc (k + k)
    → b ≡ k + left
    → b + b ≤ length fds
    → GivenOut T fds
    → Holes T t fds k b
    → Alone d (reopen_odd left i fds rest) t ls
    → (d' : Disk) × (t' : Table) × (more : List Line) × (ls
        ≡ each_line reallocated 2 left i fds ++ more)
      × Alone d' (rest fds) t' more
unfolding reopen_odd
reopen_odd-same zero k b i fds rest d T t ls e eb long g holes h = (d, t, ls, refl, h)
reopen_odd-same (suc left) k b i fds rest d T t ls e eb long g holes h =
    let (r, low, h1) = opened null_device read_write (exit 1) _ d t ls h in
    let n = to_ℕ r.value in
    let fd = fd_at fds i in
    let x = length d.offsets in
    let d1 = disk d.file d.offsets 0 in
    let index = ap (fd_at fds) e in
    let same : n ≡ fd = lowest_hole T t fds k b g holes (omega arith) long n low ∙ sym index in
    let (ls1, e1, h2) = Alone-print _ _ _ (put t n x) ls h1 in
    let kept : set fds i n ≡ fds = ap (set fds i) same ∙ set-get_or fds i (omega arith) in
    let next : Holes T (put t n x) fds (suc k) b =
      subst (λ m. Holes T (put t m x) fds (suc k) b) (sym (same ∙ index))
        (Holes-put T t fds k b g holes (omega arith) long x) in
    let (d', t', more, e2, h3) =
      reopen_odd-same left (suc k) b (i + 2) fds rest d1 T (put t n x) ls1 (omega arith)
        (omega arith) long g next
        (subst (λ l. Alone d1 (reopen_odd left (i + 2) l rest) (put t n x) ls1) kept h2) in
    (
      d',
      t',
      more,
      e1
          ∙ ap (λ l. reallocated i n ∷ l) e2
          ∙ ap (λ m. reallocated i m ∷ (each_line reallocated 2 left (i + 2) fds ++ more)) same,
      h3,
    )

close_all-lines :
    (left i : ℕ) (fds : List ℕ) (rest : Process Line) (d : Disk) (t : Table) (ls : List Line)
    → Alone d (close_all left i fds rest) t ls
    → (t' : Table) × (more : List Line) × (ls ≡ each_line closed 1 left i fds ++ more)
      × Alone d rest t' more
unfolding close_all
close_all-lines zero i fds rest d t ls h = (t, ls, refl, h)
close_all-lines (suc left) i fds rest d t ls h =
    let fd = fd_at fds i in
    let (ls1, e1, h2) = Alone-print _ _ d (clear t fd) ls (Opens.closed fd _ d t ls h) in
    let (t', more, e2, h3) = close_all-lines left (i + 1) fds rest d (clear t fd) ls1 h2 in
    (t', more, e1 ∙ ap (λ l. closed i fd ∷ l) e2, h3)

-- What the demonstration prints for descriptors that ascend.
pub record Reuses (half : ℕ) (ls : List Line) : Type 0 where
  pub fds : List ℕ
  pub many : length fds ≡ half + half
  pub ascending : (i j : ℕ) → i < j → j < length fds → fd_at fds i < fd_at fds j
  pub shown :
      ls
      ≡ each_line allocated 1 (half + half) 0 fds
        ++ (each_line closed 2 half 1 fds
            ++ (each_line reallocated 2 half 1 fds ++ each_line closed 1 (half + half) 0 fds))

-- For NUM_FDS = 2 * half and any descriptors that are open before, every run of the demonstration
-- in which no call fails prints an ascending row of descriptors that are allocated, closes every
-- second one and gets exactly the same ones again, in the same order, and closes them all.
pub demo_fd_allocation-Reuses :
    (half n : ℕ) (d : Disk) (t : Table) (ls : List Line)
    → Runs n d (demo_fd_allocation half) t nobody ls
    → Reuses half ls
unfolding demo_fd_allocation
demo_fd_allocation-Reuses half n d t ls h =
    let none_yet : GivenOut t [] = record {
      busy = λ j lt. absurd (omega arith);
      below = λ j m lt. absurd (omega arith);
      ascending = λ i j lt bound. absurd (omega arith);
    } in
    let (fds, d1, t1, ls1, len, g, e1, h1) =
      allocate-GivenOut (half + half) 0 [] _ d t ls refl none_yet (n, h) in
    let (t2, ls2, holes, e2, h2) =
      close_odd-Holes half 0 1 fds _ d1 t1 t1 ls1 (omega arith) (Holes-start t1 fds) h1 in
    let (d3, t3, ls3, e3, h3) =
      reopen_odd-same half 0 (0 + half) 1 fds _ d1 t1 t2 ls2 (omega arith) refl (omega arith) g
        holes h2 in
    let (t4, ls4, e4, h4) = close_all-lines (half + half) 0 fds (exit 0) d3 t3 ls3 h3 in
    let over = Alone-exit 0 d3 t4 ls4 h4 in
    record {
      fds = fds;
      many = len;
      ascending = g.ascending;
      shown =
          e1
          ∙ ap (λ l. each_line allocated 1 (half + half) 0 fds ++ l)
              (e2
                ∙ ap (λ l. each_line closed 2 half 1 fds ++ l)
                    (e3
                      ∙ ap (λ l. each_line reallocated 2 half 1 fds ++ l)
                          (e4
                            ∙ ap (λ l. each_line closed 1 (half + half) 0 fds ++ l) over
                            ∙ append-nil (each_line closed 1 (half + half) 0 fds))));
    }
