-- ===== src/Demos/Runs/Opens.antt =====
-- What a run goes on with behind open and close.
use jyyos.Prelude.{
  ℕ, ◌≡◌, ◌≢◌, refl, sym, ap, ◌∙◌, subst, arith, false, List, [], none, some, length, if◌then◌else◌,
  ◌==◌,
}
use jyyos.Prelude.Int.{ℤ, pos, is_neg, to_ℕ}
use jyyos.Prelude.CText.{Bytes}
use jyyos.Prelude.Table.{put, clear, LowestFree}
use jyyos.Demos.{open_file, close, Reply, Process, call, then_do}
use jyyos.Demos.{create_empty}
use jyyos.Demos.Runs.{Disk, Table}
use jyyos.Demos.Runs.Steps.{Alone, Alone-call, Alone-if, disk}
use jyyos.Demos.{create_empty, open_file, close, Reply, Process, call, then_do}

pub put-at : (t : Table) (n h : ℕ) → put t n h n ≡ some h
put-at t n h = ground arith

pub put-ne : (t : Table) (n m h x : ℕ) → t m ≡ some x → t n ≡ none → put t n h m ≡ some x
put-ne t n m h x busy free = ground (arith, cc_free)
  where
    cc_free : n ≢ m
    cc_free e = cc (ap t e)

pub not_neg : (v : ℤ) (n : ℕ) → v ≡ pos n → (is_neg v ≡ false) × (to_ℕ v ≡ n)
not_neg v n e = (rw e refl, rw e refl)

module _ {Out : Type 0} where
  pub Alone-to :
      {p : Process Out} {ls : List Out} (d d' : Disk) (t t' : Table)
      → d ≡ d'
      → t ≡ t'
      → Alone d p t ls
      → Alone d' p t' ls
  Alone-to {p} {ls} d d' t t' e e' h =
      subst (λ x. Alone x p t' ls) e (subst (λ y. Alone d p y ls) e' h)

  -- Behind an open that succeeds.
  pub opened :
      (path : Bytes) (flags : ℕ) (p : Process Out) (k : Reply → Process Out) (d : Disk) (t : Table)
      (ls : List Out)
      → Alone d (call (open_file path flags) λ r. if is_neg r.value then p else k r) t ls
      → (r : Reply) × LowestFree t (to_ℕ r.value)
        × Alone
            (disk (if flags == create_empty then [] else d.file) d.offsets 0)
            (k r)
            (put t (to_ℕ r.value) (length d.offsets))
            ls
  opened path flags p k d t ls h =
      let (r, d', t', (n, low, value, et, ed), h') =
        Alone-call (open_file path flags) (λ r. if is_neg r.value then p else k r) d t ls h in
      let (some_fd, fd) = not_neg r.value n value in
      (
        r,
        subst (LowestFree t) (sym fd) low,
        Alone-to d' _ t' _ ed (et ∙ ap (λ m. put t m (length d.offsets)) (sym fd))
            (Alone-if (is_neg r.value) p (k r) d' t' ls some_fd h'),
      )

  pub closed :
      (fd : ℕ) (p : Process Out) (d : Disk) (t : Table) (ls : List Out)
      → Alone d (then_do (close fd) p) t ls
      → Alone d p (clear t fd) ls
  closed fd p d t ls h =
      let (r, d', t', (et, ed), h') = Alone-call (close fd) (λ _. p) d t ls h in
      Alone-to d' d t' (clear t fd) ed et h'
