-- ===== src/Labyrinth/Connected/Explore.antt =====
-- labyrinth.c, dfs: with fuel for the cells not yet visited it returns, and it visits what can be
-- reached from its start.
use jyyos.Prelude.{ℕ, zero, suc, ◌≤◌, ◌≡◌, refl, ◌⊎◌, inl, inr, true, false}
use jyyos.Prelude.{subst, sym, ◌∙◌, not, ◌&&◌, Option, none, some, List, [], ◌∷◌, Bool-cases, arith}
use jyyos.Prelude.Int.{ℤ, pos, negsuc, to_ℕ, ◌+ℤ◌}
use jyyos.Labyrinth.{Labyrinth, is_empty_space_or_user}
use jyyos.Labyrinth.Connected.{Visited, mark, directions, visit_each, dfs}
use jyyos.Labyrinth.Connected.Reach.{Cell, IsOpen, Next, Reach, stay, step, Reach-trans}
use jyyos.Labyrinth.Connected.Measure.{Grows, unseen, unseen_mono, unseen_lt}

-- What a part of the flood round p adds to the visited cells: only cells that p reaches, and with
-- each new cell all its open neighbours.
pub record Extends (lab : Labyrinth) (p : Cell) (vis vis' : Visited) : Type 0 where
  pub grows : Grows vis vis'
  pub sound : (q : Cell) → vis' q.0 q.1 ≡ true → (vis q.0 q.1 ≡ true) ⊎ Reach lab p q
  pub closed :
      (q r : Cell)
      → vis' q.0 q.1 ≡ true
      → Next q r
      → IsOpen lab r
      → (vis q.0 q.1 ≡ true) ⊎ (vis' r.0 r.1 ≡ true)

Extends-refl : (lab : Labyrinth) (p : Cell) (vis : Visited) → Extends lab p vis vis
Extends-refl lab p vis = record {
  grows = λ i j h. h;
  sound = λ q h. inl h;
  closed = λ q r h n o. inl h;
}

-- A flood from the open neighbour q of p, and then more round p.
Extends-child :
    {lab : Labyrinth} {p q : Cell} {vis vis₁ vis₂ : Visited}
    → Next p q
    → IsOpen lab q
    → Extends lab q vis vis₁
    → Extends lab p vis₁ vis₂
    → Extends lab p vis vis₂
Extends-child n o a b = record {
  grows = λ i j h. b.grows i j (a.grows i j h);
  sound = λ r h. elim (b.sound r h) [
    | inl h₁ ↦ elim (a.sound r h₁) [ inl h₀ ↦ inl h₀ | inr w ↦ inr (Reach-trans (step stay n o) w) ]
    | inr w ↦ inr w
  ];
  closed = λ r s h m os. elim (b.closed r s h m os) [
    | inl h₁ ↦ elim (a.closed r s h₁ m os) [ inl h₀ ↦ inl h₀ | inr t ↦ inr (b.grows s.0 s.1 t) ]
    | inr t ↦ inr t
  ];
}

-- The cell that a direction leads to from p: what the guard of the loop says of it.
abbrev Leads : Cell → (ℤ × ℤ) → Cell → Type 0
Leads (i, j) (di, dj) (i', j') = (pos i +ℤ di ≡ pos i') × (pos j +ℤ dj ≡ pos j')

abbrev ForEach : ((ℤ × ℤ) → Type 0) → List (ℤ × ℤ) → Type 0
ForEach P [] = Unit
ForEach P (d ∷ ds) = P d × ForEach P ds

abbrev Stays : Cell → List (ℤ × ℤ) → Type 0
Stays p = ForEach (λ d. (q : Cell) → Leads p d q → Next p q)

abbrev Covered : Labyrinth → Cell → Visited → List (ℤ × ℤ) → Type 0
Covered lab p vis = ForEach (λ d. (q : Cell) → Leads p d q → IsOpen lab q → vis q.0 q.1 ≡ true)

-- The loop's result: it extends the visited cells, and visits what the directions lead to.
record Covers (lab : Labyrinth) (p : Cell) (ds : List (ℤ × ℤ)) (vis : Visited)
    (result : Option Visited) : Type 0 where
  out : Visited
  returns : result ≡ some out
  extends : Extends lab p vis out
  covers : Covered lab p out ds

pub record Floods (lab : Labyrinth) (p : Cell) (vis : Visited) (result : Option Visited)
    : Type 0 where
  pub out : Visited
  pub returns : result ≡ some out
  pub extends : Extends lab p vis out
  pub begun : out p.0 p.1 ≡ true

guard-IsOpen :
    (lab : Labyrinth) (a b : ℕ)
    → is_empty_space_or_user lab (pos a) (pos b) ≡ true
    → IsOpen lab (a, b)
unfolding is_empty_space_or_user
guard-IsOpen lab a b h = ground arith

IsOpen-guard :
    (lab : Labyrinth) (a b : ℕ)
    → IsOpen lab (a, b)
    → is_empty_space_or_user lab (pos a) (pos b) ≡ true
unfolding is_empty_space_or_user
IsOpen-guard lab a b h = ground arith

guard-negsuc_row :
    (lab : Labyrinth) (a : ℕ) (col : ℤ) → is_empty_space_or_user lab (negsuc a) col ≡ false
unfolding is_empty_space_or_user
guard-negsuc_row lab a col = refl

guard-negsuc_col :
    (lab : Labyrinth) (row : ℤ) (b : ℕ) → is_empty_space_or_user lab row (negsuc b) ≡ false
unfolding is_empty_space_or_user
guard-negsuc_col lab row b = ground arith

pos-ne-negsuc : {a b : ℕ} → pos a ≡ negsuc b → ⊥
pos-ne-negsuc h = cc

-- A direction leads to one cell.
Leads-begun :
    (p : Cell) (d : ℤ × ℤ) (q r : Cell) (vis : Visited)
    → Leads p d q
    → Leads p d r
    → vis q.0 q.1 ≡ true
    → vis r.0 r.1 ≡ true
Leads-begun p d q r vis (a, b) (a', b') h = cc

module _ (lab : Labyrinth) (p : Cell) (bound : ℕ) (visit : ℤ → ℤ → Visited → Option Visited)
    (visits : (q : Cell) (vis : Visited)
      → IsOpen lab q
      → vis q.0 q.1 ≡ false
      → unseen vis lab.cols lab.rows ≤ bound
      → Floods lab q vis (visit (pos q.0) (pos q.1) vis)) where
  abbrev Rest : List (ℤ × ℤ) → Type 0
  Rest ds =
      (vis : Visited)
      → unseen vis lab.cols lab.rows ≤ bound
      → Covers lab p ds vis (visit_each visit lab (pos p.0) (pos p.1) ds vis)

  -- A direction that is not taken: its cell is closed, or visited already.
  Covers-skip :
      (d : ℤ × ℤ) (ds : List (ℤ × ℤ)) {vis : Visited} {result : Option Visited}
      → ((q : Cell) → Leads p d q → IsOpen lab q → vis q.0 q.1 ≡ true)
      → Covers lab p ds vis result
      → Covers lab p (d ∷ ds) vis result
  Covers-skip d ds met rest = record {
    out = rest.out;
    returns = rest.returns;
    extends = rest.extends;
    covers = (λ q l o. rest.extends.grows q.0 q.1 (met q l o), rest.covers);
  }

  -- A direction that is taken.
  Covers-take :
      (d : ℤ × ℤ) (ds : List (ℤ × ℤ)) (q : Cell) {vis : Visited} {result : Option Visited}
      → Leads p d q
      → Next p q
      → IsOpen lab q
      → (child : Floods lab q vis (visit (pos q.0) (pos q.1) vis))
      → Covers lab p ds child.out result
      → Covers lab p (d ∷ ds) vis result
  Covers-take d ds q leads n o child rest = record {
    out = rest.out;
    returns = rest.returns;
    extends = Extends-child n o child.extends rest.extends;
    covers = (
      λ r l o'. rest.extends.grows r.0 r.1 (Leads-begun p d q r child.out leads l child.begun),
      rest.covers,
    );
  }

  -- One round of the loop, at the cell (row, col) that the direction d gives.
  round-Covers :
      (d : ℤ × ℤ) (ds : List (ℤ × ℤ)) (vis : Visited) (row col : ℤ)
      → pos p.0 +ℤ d.0 ≡ row
      → pos p.1 +ℤ d.1 ≡ col
      → ((q : Cell) → Leads p d q → Next p q)
      → Rest ds
      → unseen vis lab.cols lab.rows ≤ bound
      → Covers lab p
          (d ∷ ds)
          vis
          (elim (is_empty_space_or_user lab row col && not (vis (to_ℕ row) (to_ℕ col))) [
            | true ↦ elim (visit row col vis) [
              | some vis' ↦ visit_each visit lab (pos p.0) (pos p.1) ds vis'
              | none ↦ none
            ]
            | false ↦ visit_each visit lab (pos p.0) (pos p.1) ds vis
          ])
  round-Covers d ds vis (negsuc a) col er ec near rest small =
      rw (guard-negsuc_row lab a col)
        (Covers-skip d ds (λ q l o. absurd (pos-ne-negsuc (sym l.0 ∙ er))) (rest vis small))
  round-Covers d ds vis (pos a) (negsuc b) er ec near rest small =
      rw (guard-negsuc_col lab (pos a) b)
        (Covers-skip d ds (λ q l o. absurd (pos-ne-negsuc (sym l.1 ∙ ec))) (rest vis small))
  round-Covers d ds vis (pos a) (pos b) er ec near rest small =
      elim (Bool-cases (is_empty_space_or_user lab (pos a) (pos b))) [
        | inl free ↦ elim (Bool-cases (vis a b)) [
          | inl old ↦
              rw (free, old)
                (Covers-skip d ds (λ q l o. Leads-begun p d (a, b) q vis (er, ec) l old)
                  (rest vis small))
          | inr new ↦
              let o = guard-IsOpen lab a b free in
              let child = visits (a, b) vis o new small in
              let fewer = unseen_mono vis child.out lab.cols lab.rows child.extends.grows in
              rw (free, new, child.returns)
                (Covers-take d ds (a, b) (er, ec) (near (a, b) (er, ec)) o child
                  (rest child.out (omega arith)))
        ]
        | inr shut ↦
            rw shut
              (Covers-skip d ds (λ q l o. absurd (closed-not-IsOpen q l o shut)) (rest vis small))
      ]
    where
      closed-not-IsOpen :
          (q : Cell)
          → Leads p d q
          → IsOpen lab q
          → is_empty_space_or_user lab (pos a) (pos b) ≡ false
          → ⊥
      closed-not-IsOpen q l o shut = cc (IsOpen-guard lab q.0 q.1 o)

  visit_each-Covers : (ds : List (ℤ × ℤ)) → Stays p ds → Rest ds
  unfolding visit_each
  visit_each-Covers [] near vis small = record {
    out = vis;
    returns = refl;
    extends = Extends-refl lab p vis;
    covers = tt;
  }
  visit_each-Covers (d ∷ ds) (near, nears) vis small =
      round-Covers d ds vis (pos p.0 +ℤ d.0) (pos p.1 +ℤ d.1) refl refl near
        (visit_each-Covers ds nears) small

directions-Stays : (p : Cell) → Stays p directions
directions-Stays p =
    (λ q l. ground arith, (λ q l. ground arith, (λ q l. ground arith, (λ q l. ground arith, tt))))

-- The four directions lead to all neighbours.
Covered-Next :
    (lab : Labyrinth) (p q : Cell) (vis : Visited)
    → Covered lab p vis directions
    → Next p q
    → IsOpen lab q
    → vis q.0 q.1 ≡ true
Covered-Next lab p q vis (up, (down, (left, (right, _)))) n o =
    ground (arith, up q, down q, left q, right q)

mark-Grows : (vis : Visited) (i j : ℕ) → Grows vis (mark vis i j)
mark-Grows vis i j a b h = ground arith

mark-cases :
    (vis : Visited) (i j a b : ℕ) → mark vis i j a b ≡ true → (a ≡ i) × (b ≡ j) ⊎ (vis a b ≡ true)
mark-cases vis i j a b h = ground arith

Next-from : (p q r : Cell) → q.0 ≡ p.0 → q.1 ≡ p.1 → Next q r → Next p r
Next-from p q r a b n = ground arith

mark_self : (vis : Visited) (i j : ℕ) → mark vis i j i j ≡ true
mark_self vis i j = ground arith

Reach-same : {lab : Labyrinth} (p q : Cell) → q.0 ≡ p.0 → q.1 ≡ p.1 → Reach lab p q
Reach-same {lab} p q a b = subst (λ c. Reach lab p c) (λ i. (sym a i, sym b i)) stay

-- Marking p and then flooding round it.
Floods-marked :
    (lab : Labyrinth) (p : Cell) (vis : Visited) {result : Option Visited}
    → Covers lab p directions (mark vis p.0 p.1) result
    → Floods lab p vis result
Floods-marked lab p vis c = record {
  out = c.out;
  returns = c.returns;
  extends = record {
    grows = λ i j h. c.extends.grows i j (mark-Grows vis p.0 p.1 i j h);
    sound = λ q h. elim (c.extends.sound q h) [
      | inl m ↦ elim (mark-cases vis p.0 p.1 q.0 q.1 m) [
        | inl (a, b) ↦ inr (Reach-same p q a b)
        | inr old ↦ inl old
      ]
      | inr w ↦ inr w
    ];
    closed = λ q r h n o. elim (c.extends.closed q r h n o) [
      | inl m ↦ elim (mark-cases vis p.0 p.1 q.0 q.1 m) [
        | inl (a, b) ↦ inr (Covered-Next lab p r c.out c.covers (Next-from p q r a b n) o)
        | inr old ↦ inl old
      ]
      | inr t ↦ inr t
    ];
  };
  begun = c.extends.grows p.0 p.1 (mark_self vis p.0 p.1);
}

-- With fuel for every cell that is not yet visited, `dfs` from an unvisited open cell returns. It
-- visits that cell, adds only cells that can be reached from it through open cells, and leaves no
-- open neighbour of a cell that it added unvisited.
pub dfs-Floods :
    (lab : Labyrinth) (fuel : ℕ) (p : Cell) (vis : Visited)
    → IsOpen lab p
    → vis p.0 p.1 ≡ false
    → unseen vis lab.cols lab.rows ≤ fuel
    → Floods lab p vis (dfs fuel lab (pos p.0) (pos p.1) vis)
unfolding dfs
dfs-Floods lab zero p vis o new small = absurd (
    omega (
      arith,
      unseen_lt vis (mark vis p.0 p.1) lab.cols lab.rows p.0 p.1 (mark-Grows vis p.0 p.1) o.0 o.1
          new (mark_self vis p.0 p.1),
    ))
dfs-Floods lab (suc fuel) p vis o new small = Floods-marked lab p vis (
    visit_each-Covers lab p fuel (dfs fuel lab) (dfs-Floods lab fuel) directions
      (directions-Stays p) (mark vis p.0 p.1)
      (omega (
        arith,
        unseen_lt vis (mark vis p.0 p.1) lab.cols lab.rows p.0 p.1 (mark-Grows vis p.0 p.1) o.0 o.1
            new (mark_self vis p.0 p.1),
      )))
