-- ===== src/Sh/Run/Wiring/Tables.antt =====
-- The descriptor tables that runcmd goes through.
use jyyos.Prelude.{ℕ, zero, suc, ◌≡◌, ◌≢◌, refl, sym, ◌∙◌, subst, fun_ext, arith}
use jyyos.Prelude.{none, some}
use jyyos.Prelude.Table.{put, clear, LowestFree}
use jyyos.Sh.Run.Wiring.{Target, Table}

-- With 0 and 1 open, the lowest free descriptor behind close(0) or close(1) is that one.
pub lowest_zero : (t : Table) (n : ℕ) → LowestFree (clear t 0) n → n ≡ 0
lowest_zero t zero h = refl
lowest_zero t (suc n) (free, below) = absurd (below 0 (omega arith) refl)

pub lowest_one : (t : Table) (n : ℕ) → t 0 ≢ none → LowestFree (clear t 1) n → n ≡ 1
lowest_one t zero h (free, below) = absurd (h free)
lowest_one t (suc zero) h (free, below) = refl
lowest_one t (suc (suc n)) h (free, below) = absurd (below 1 (omega arith) refl)

pub put-clear : (t : Table) (n : ℕ) (x : Target) → put (clear t n) n x ≡ put t n x
put-clear t n x = fun_ext λ m. ground arith

pub ne_of_free : (t : Table) (n m : ℕ) → t n ≡ none → t m ≢ none → n ≢ m
ne_of_free t n m free busy e = busy (subst (λ i. t i ≡ none) e free)

module _ (t : Table) (a b d : ℕ) (x y z : Target) (free_a : t a ≡ none)
    (free_b : put t a x b ≡ none) (a_ne : a ≢ d) (b_ne : b ≢ d) where
  -- Behind close(d), dup and the closes of the pipe, only d has changed.
  pub pipe_table : clear (clear (put (clear (put (put t a x) b y) d) d z) a) b ≡ put t d z
  pipe_table = fun_ext λ m. ground arith

module _ (t : Table) (a b : ℕ) (x y : Target) (free_a : t a ≡ none) (free_b : put t a x b ≡ none)
    (d c n : ℕ) (z w : Target) (a_ne : a ≢ d) (b_ne : b ≢ d) (c_ne : c ≢ d)
    (end : put (put t a x) b y c ≡ some z) where
  abbrev pub piped : Table
  piped = put (put t a x) b y

  pub dup_table :
      clear piped d c ≡ some w → n ≡ d → clear (clear (put (clear piped d) n w) a) b ≡ put t d z
  dup_table copied lowest =
      let same : w ≡ z = some_eq (sym copied ∙ kept ∙ end) in
      subst (λ m. clear (clear (put (clear piped d) m w) a) b ≡ put t d z) (sym lowest)
        (subst (λ v. clear (clear (put (clear piped d) d v) a) b ≡ put t d z) (sym same)
          (pipe_table t a b d x y z free_a free_b a_ne b_ne))
    where
      kept : clear piped d c ≡ piped c
      kept = ground arith

      some_eq : some w ≡ some z → w ≡ z
      some_eq e = cc

  pub dup_open : clear piped d c ≢ none
  dup_open e = cc (kept, end)
    where
      kept : clear piped d c ≡ piped c
      kept = ground arith

pub read_end_kept :
    (t : Table) (a b : ℕ) (x y : Target) → put t a x b ≡ none → put (put t a x) b y a ≡ some x
read_end_kept t a b x y free = ground arith
