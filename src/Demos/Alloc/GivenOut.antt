-- ===== src/Demos/Alloc/GivenOut.antt =====
-- Tables whose descriptors were given out by open, and those with every second one closed.
use jyyos.Prelude.{
  ℕ, zero, suc, ◌+◌, ◌<◌, ◌≤◌, ◌≡◌, ◌≢◌, refl, sym, ap, ◌∙◌, subst, arith, ◌⊎◌, inl, inr, List, [],
  ◌∷◌, ◌++◌, none, length, length-append, get_or, ◌==◌, Bool-cases,
}
use jyyos.Prelude.Table.{put, clear, LowestFree}
use jyyos.Demos.Runs.{Table}

abbrev pub fd_at : List ℕ → ℕ → ℕ
fd_at fds i = get_or fds i 0

-- Descriptors that were given out one after the other, and not closed since.
pub record GivenOut (t : Table) (fds : List ℕ) : Type 0 where
  pub busy : (j : ℕ) → j < length fds → t (fd_at fds j) ≢ none
  pub below : (j m : ℕ) → j < length fds → m < fd_at fds j → t m ≢ none
  pub ascending : (i j : ℕ) → i < j → j < length fds → fd_at fds i < fd_at fds j

pub get_or-append_left :
    (xs ys : List ℕ) (i : ℕ) → i < length xs → get_or (xs ++ ys) i 0 ≡ get_or xs i 0
get_or-append_left [] ys i h = absurd (omega arith)
get_or-append_left (x ∷ xs) ys zero h = refl
get_or-append_left (x ∷ xs) ys (suc i) h = get_or-append_left xs ys i (omega arith)

pub get_or-append_length :
    (xs : List ℕ) (y : ℕ) (ys : List ℕ) → get_or (xs ++ y ∷ ys) (length xs) 0 ≡ y
get_or-append_length [] y ys = refl
get_or-append_length (x ∷ xs) y ys = get_or-append_length xs y ys

put-ne_none : (t : Table) (n h m : ℕ) → t m ≢ none → put t n h m ≢ none
put-ne_none t n h m busy = ground arith

put_self : (t : Table) (n h : ℕ) → put t n h n ≢ none
put_self t n h = ground arith

last_or_before : (i n : ℕ) → i < n + 1 → (i < n) ⊎ (i ≡ n)
last_or_before i n h = omega arith

-- One more.
pub GivenOut-append :
    (t : Table) (fds : List ℕ) (n h : ℕ)
    → GivenOut t fds
    → LowestFree t n
    → GivenOut (put t n h) (fds ++ n ∷ [])
GivenOut-append t fds n h g (free, low) = record {
  busy = λ j lt. elim (position j lt) [
    | inl (before, e) ↦ rw e (put-ne_none t n h (fd_at fds j) (g.busy j before))
    | inr e ↦ rw e (put_self t n h)
  ];
  below = λ j m lt under. elim (position j lt) [
    | inl (before, e) ↦ put-ne_none t n h m (g.below j m before (rw e at under))
    | inr e ↦ put-ne_none t n h m (low m (rw e at under))
  ];
  ascending = λ i j lt bound. elim (position j bound) [
    | inl (before, e) ↦
        rw (e, get_or-append_left fds (n ∷ []) i (omega arith)) (g.ascending i j lt before)
    | inr e ↦
        rw (e, get_or-append_left fds (n ∷ []) i (smaller i j lt bound))
          (new i (smaller i j lt bound))
  ];
}
  where
    position :
        (j : ℕ)
        → j < length (fds ++ n ∷ [])
        → ((j < length fds) × (fd_at (fds ++ n ∷ []) j ≡ fd_at fds j))
          ⊎ (fd_at (fds ++ n ∷ []) j ≡ n)
    position j lt =
        elim (last_or_before j (length fds) (omega (arith, length-append fds (n ∷ [])))) [
          | inl before ↦ inl (before, get_or-append_left fds (n ∷ []) j before)
          | inr e ↦ inr (ap (fd_at (fds ++ n ∷ [])) e ∙ get_or-append_length fds n [])
        ]

    smaller : (i j : ℕ) → i < j → j < length (fds ++ n ∷ []) → i < length fds
    smaller i j lt bound = omega (arith, length-append fds (n ∷ []))

    three : (a : ℕ) → (a < n) ⊎ ((a ≡ n) ⊎ (n < a))
    three a = omega arith

    new : (i : ℕ) → i < length fds → fd_at fds i < n
    new i lt = elim (three (fd_at fds i)) [
      | inl below ↦ below
      | inr (inl e) ↦ absurd (g.busy i lt (subst (λ m. t m ≡ none) (sym e) free))
      | inr (inr above) ↦ absurd (g.below i n lt above free)
    ]

-- T with every second descriptor closed, from that of index 1 + 2a up to that of index 1 + 2b.
pub record Holes (T t : Table) (fds : List ℕ) (a b : ℕ) : Type 0 where
  pub free : (k : ℕ) → a ≤ k → k < b → t (fd_at fds (suc (k + k))) ≡ none
  pub only :
      (m : ℕ)
      → t m ≡ none
      → (T m ≡ none) ⊎ ((k : ℕ) × (a ≤ k) × (k < b) × (m ≡ fd_at fds (suc (k + k))))

pub Holes-start : (T : Table) (fds : List ℕ) → Holes T T fds 0 0
Holes-start T fds = record { free = λ k lo hi. absurd (omega arith); only = λ m e. inl e }

clear_self : (t : Table) (n : ℕ) → clear t n n ≡ none
clear_self t n = ground arith

clear_keeps : (t : Table) (n m : ℕ) → t m ≡ none → clear t n m ≡ none
clear_keeps t n m e = ground arith

clear_only : (t : Table) (n m : ℕ) → clear t n m ≡ none → (m ≡ n) ⊎ (t m ≡ none)
clear_only t n m e = elim (Bool-cases (m == n)) [
  | inl same ↦ inl (ground arith)
  | inr other ↦ inr (ground arith)
]

pub Holes-clear :
    (T t : Table) (fds : List ℕ) (b : ℕ)
    → Holes T t fds 0 b
    → Holes T (clear t (fd_at fds (suc (b + b)))) fds 0 (suc b)
Holes-clear T t fds b h = record {
  free = λ k lo hi. elim (last_or_before k b (omega arith)) [
    | inl before ↦ clear_keeps t (fd_at fds (suc (b + b))) _ (h.free k lo before)
    | inr e ↦ rw e (clear_self t (fd_at fds (suc (b + b))))
  ];
  only = λ m e. elim (clear_only t (fd_at fds (suc (b + b))) m e) [
    | inl here ↦ inr (b, omega arith, omega arith, here)
    | inr there ↦ elim (h.only m there) [
      | inl out ↦ inl out
      | inr (k, lo, hi, is) ↦ inr (k, lo, omega arith, is)
    ]
  ];
}

put_only : (t : Table) (n x m : ℕ) → put t n x m ≡ none → (m ≢ n) × (t m ≡ none)
put_only t n x m e = (λ same. ground arith, ground arith)

put_keeps : (t : Table) (n x m : ℕ) → m ≢ n → t m ≡ none → put t n x m ≡ none
put_keeps t n x m ne e = ground arith

-- The lowest hole is given out, and leaves the other holes.
module _ (T t : Table) (fds : List ℕ) (a b : ℕ) (g : GivenOut T fds) (h : Holes T t fds a b)
    (some_left : a < b) (long : b + b ≤ length fds) where
  pub lowest_hole : (n : ℕ) → LowestFree t n → n ≡ fd_at fds (suc (a + a))
  lowest_hole n (free, low) = elim (three n (fd_at fds (suc (a + a)))) [
    | inl below ↦ elim (h.only n free) [
      | inl out ↦ absurd (g.below (suc (a + a)) n (omega arith) below out)
      | inr (k, lo, hi, is) ↦ absurd (not_below n k lo hi is below)
    ]
    | inr (inl e) ↦ e
    | inr (inr above) ↦
        absurd (low (fd_at fds (suc (a + a))) above (h.free a (omega arith) some_left))
  ]
    where
      three : (x y : ℕ) → (x < y) ⊎ ((x ≡ y) ⊎ (y < x))
      three x y = omega arith

      not_below :
          (n k : ℕ) → a ≤ k → k < b → n ≡ fd_at fds (suc (k + k)) → n < fd_at fds (suc (a + a)) → ⊥
      not_below n k lo hi is below = elim (last_or_before a k (omega arith)) [
        | inl later ↦
            let up = g.ascending (suc (a + a)) (suc (k + k)) (omega arith) (omega arith) in
            omega arith
        | inr e ↦ let same = ap (λ x. fd_at fds (suc (x + x))) e in omega arith
      ]

  pub Holes-put : (x : ℕ) → Holes T (put t (fd_at fds (suc (a + a))) x) fds (suc a) b
  Holes-put x = record {
    free = λ k lo hi.
        let up = g.ascending (suc (a + a)) (suc (k + k)) (omega arith) (omega arith) in
        put_keeps t (fd_at fds (suc (a + a))) x _ (λ e. omega arith) (h.free k (omega arith) hi);
    only = λ m e.
        let (ne, there) = put_only t (fd_at fds (suc (a + a))) x m e in
        elim (h.only m there) [
          | inl out ↦ inl out
          | inr (k, lo, hi, is) ↦ inr (k, later k lo m is ne, hi, is)
        ];
  }
    where
      later :
          (k : ℕ)
          → a ≤ k
          → (m : ℕ) → m ≡ fd_at fds (suc (k + k))
          → m ≢ fd_at fds (suc (a + a))
          → suc a ≤ k
      later k lo m is ne = elim (last_or_before a k (omega arith)) [
        | inl up ↦ omega arith
        | inr e ↦ absurd (ne (is ∙ ap (λ y. fd_at fds (suc (y + y))) (sym e)))
      ]
