-- ===== src/Hanoi/Solution/Puzzle.antt =====
-- The towers of Hanoi as a puzzle: discs on rods, and which moves its rules allow.
use jyyos.Prelude.{
  ℕ, zero, suc, ◌-◌, ◌^◌, ◌<◌, ◌≤◌, ◌≡◌, ◌≢◌, refl, sym, ◌∙◌, ap, arith, Bool, true, ltb, lt→ltb,
  ◌==◌, if◌then◌else◌,
}
use jyyos.Prelude.{Option, none, some, List, [], ◌∷◌, ◌++◌}
use jyyos.Prelude.{subst, inl, inr, Bool-cases, ==_iff}
use jyyos.Hanoi.{Move, move, chain, hanoi}
use jyyos.Hanoi.Solution.{solution, hanoi-solution}

-- The discs of each rod, the top one first; a disc is its size.
abbrev pub Rods : Type 0
Rods = ℕ → List ℕ

abbrev put : Rods → ℕ → List ℕ → Rods
put s a discs x = if x == a then discs else s x

-- A disc may lie on an empty rod or a larger disc.
abbrev fits : ℕ → List ℕ → Bool
fits d [] = true
fits d (e ∷ es) = ltb d e

abbrev lift : Rods → ℕ → ℕ → List ℕ → Option Rods
lift s from to [] = none
lift s from to (d ∷ ds) = if fits d (s to) then some (put (put s from ds) to (d ∷ s to)) else none

-- The rods after the moves; none if a move breaks the rules.
unfoldable pub carry_out : Rods → List Move → Option Rods
carry_out s [] = some s
carry_out s (m ∷ ms) = chain (lift s m.from m.to (s m.from)) λ s'. carry_out s' ms

-- The discs 0 to n - 1 on top of the others.
abbrev pub tower : ℕ → List ℕ → List ℕ
tower zero discs = discs
tower (suc n) discs = tower n (n ∷ discs)

-- No disc on top is smaller than n.
abbrev pub IsClear : ℕ → List ℕ → Type 0
IsClear n [] = Unit {0}
IsClear n (e ∷ es) = n ≤ e

-- The moves are allowed, take n discs from a rod to another, and leave the other rods alone.
pub record Takes (s : Rods) (n from to : ℕ) (others : List ℕ) (ms : List Move) : Type 0 where
  pub rods : Rods
  pub allowed : carry_out s ms ≡ some rods
  pub taken : rods from ≡ others
  pub put_on : rods to ≡ tower n (s to)
  pub kept : (x : ℕ) → x ≢ from → x ≢ to → rods x ≡ s x

carry_out-append :
    (s : Rods) (ms ns : List Move)
    → carry_out s (ms ++ ns) ≡ chain (carry_out s ms) λ s'. carry_out s' ns
unfolding carry_out
carry_out-append s [] ns = refl
carry_out-append s (m ∷ ms) ns =
    lifted (lift s m.from m.to (s m.from)) (λ s'. carry_out-append s' ms ns)
  where
    lifted :
        (o : Option Rods)
        → ((s' : Rods) → carry_out s' (ms ++ ns) ≡ chain (carry_out s' ms) λ s''. carry_out s'' ns)
        → chain o (λ s'. carry_out s' (ms ++ ns))
          ≡ chain (chain o λ s'. carry_out s' ms) λ s''. carry_out s'' ns
    lifted none h = refl
    lifted (some s') h = h s'

IsClear-pred : (n : ℕ) (l : List ℕ) → IsClear (suc n) l → IsClear n l
IsClear-pred n [] h = tt
IsClear-pred n (e ∷ es) h = omega arith

fits_clear : (n : ℕ) (l : List ℕ) → IsClear (suc n) l → fits n l ≡ true
fits_clear n [] h = refl
fits_clear n (e ∷ es) h = lt→ltb n e (omega arith)

put_same : (s : Rods) (a : ℕ) (l : List ℕ) → put s a l a ≡ l
put_same s a l = ground arith

put_other : (s : Rods) (a : ℕ) (l : List ℕ) (x : ℕ) → x ≢ a → put s a l x ≡ s x
put_other s a l x h = ground arith

-- One move of a disc that fits.
lift-fits :
    (s : Rods) (from to d : ℕ) (ds : List ℕ)
    → s from ≡ d ∷ ds
    → fits d (s to) ≡ true
    → lift s from to (s from) ≡ some (put (put s from ds) to (d ∷ s to))
lift-fits s from to d ds e f = rw (e, f) refl

module _ (s : Rods) (n from to via : ℕ) (others : List ℕ) (a : from ≢ to) (b : from ≢ via)
    (c : to ≢ via) (ms : List Move) (t : Takes s n from via (n ∷ others) ms) where
  -- The rods after the largest disc has moved.
  abbrev moved : Rods
  moved = put (put t.rods from others) to (n ∷ t.rods to)

  moved-from : moved from ≡ others
  moved-from =
      put_other (put t.rods from others) to (n ∷ t.rods to) from a ∙ put_same t.rods from others

  moved-to : moved to ≡ n ∷ s to
  moved-to =
      put_same (put t.rods from others) to (n ∷ t.rods to)
      ∙ ap (λ l. n ∷ l) (t.kept to (λ e. a (sym e)) c)

  moved_other : (x : ℕ) → x ≢ from → x ≢ to → moved x ≡ t.rods x
  moved_other x h k =
      put_other (put t.rods from others) to (n ∷ t.rods to) x k ∙ put_other t.rods from others x h

  moved-via : moved via ≡ tower n (s via)
  moved-via = moved_other via (λ e. b (sym e)) (λ e. c (sym e)) ∙ t.put_on

  -- The moves ms, one move of the largest disc and the moves bs take one disc more.
  Takes-suc :
      (bs : List Move)
      → IsClear (suc n) (s to)
      → Takes moved n via to (s via) bs
      → Takes s (suc n) from to others (ms ++ move from to ∷ bs)
  unfolding carry_out
  Takes-suc bs clear_to u = record {
    rods = u.rods;
    allowed =
        carry_out-append s ms (move from to ∷ bs)
        ∙ rw
            (
              t.allowed,
              lift-fits t.rods from to n others t.taken
                  (ap (fits n) (t.kept to (λ e. a (sym e)) c) ∙ fits_clear n (s to) clear_to),
            )
            u.allowed;
    taken = u.kept from b a ∙ moved-from;
    put_on = u.put_on ∙ ap (tower n) moved-to;
    kept = λ x h k. elim (Bool-cases (x == via)) [
      | inl e ↦ subst (λ y. u.rods y ≡ s y) (sym ((==_iff x via).0 e)) u.taken
      | inr e ↦
          let other : x ≢ via = ground (arith, e) in
          u.kept x other k ∙ moved_other x h k ∙ t.kept x h other
    ];
  }

Takes-solution :
    (s : Rods) (n from to via : ℕ) (others : List ℕ)
    → from ≢ to
    → from ≢ via
    → to ≢ via
    → s from ≡ tower n others
    → IsClear n others
    → IsClear n (s to)
    → IsClear n (s via)
    → Takes s n from to others (solution n from to via)
unfolding carry_out
Takes-solution s zero from to via others a b c e clear clear_to clear_via = record {
  rods = s;
  allowed = refl;
  taken = e;
  put_on = refl;
  kept = λ x h k. refl;
}
Takes-solution s (suc n) from to via others a b c e clear clear_to clear_via =
    let t =
      Takes-solution s n from via to (n ∷ others) b a (λ e'. c (sym e')) e (omega arith)
        (IsClear-pred n (s via) clear_via) (IsClear-pred n (s to) clear_to) in
    let left = solution n from via to in
    Takes-suc s n from to via others a b c left t (solution n via to from) clear_to (
      Takes-solution (moved s n from to via others a b c left t) n via to from (s via)
        (λ e'. c (sym e')) (λ e'. b (sym e')) (λ e'. a (sym e'))
        (moved-via s n from to via others a b c left t) (IsClear-pred n (s via) clear_via)
        (subst (IsClear n) (sym (moved-to s n from to via others a b c left t)) (omega arith))
        (subst (IsClear n) (sym (moved-from s n from to via others a b c left t))
          (IsClear-pred n others clear)))

-- If n discs lie on a rod, 1 to 31, with no smaller disc below them or on top of two other
-- rods, then hanoi, with calls as deep as there are discs, returns 2 ^ n - 1 and prints moves that
-- the rules allow and that take the discs from that rod to the second and leave all other rods as
-- they were.
pub hanoi-Takes :
    (s : Rods) (fuel n from to via : ℕ) (others : List ℕ)
    → 0 < n
    → n ≤ fuel
    → n < 32
    → from ≢ to
    → from ≢ via
    → to ≢ via
    → s from ≡ tower n others
    → IsClear n others
    → IsClear n (s to)
    → IsClear n (s via)
    → (ms : List Move) × (hanoi fuel n from to via ≡ some (2 ^ n - 1, ms))
      × Takes s n from to others ms
hanoi-Takes s fuel n from to via others some_discs deep few a b c e clear clear_to clear_via = (
  solution n from to via,
  hanoi-solution fuel n from to via some_discs deep few,
  Takes-solution s n from to via others a b c e clear clear_to clear_via,
)
