-- ===== src/Labyrinth/Move/Outcome.antt =====
-- labyrinth.c, movePlayer: the four ways in which a move can end.
use jyyos.Prelude.{
  not, ◌&&◌, ℕ, ◌+◌, ◌<◌, ◌≡◌, ◌≢◌, refl, ◌⊎◌, inl, inr, Bool, true, false, ◌==◌, arith,
}
use jyyos.Prelude.{sym, ◌∙◌, if◌then◌else◌, Bool-cases}
use jyyos.Prelude.Int.{ℤ, pos, negsuc, dec, to_ℕ}
use jyyos.Labyrinth.{Labyrinth, Position, here, write, is_empty_space}
use jyyos.Labyrinth.Find.First.{Searched, found, absent, Before, find_player-Searched}
use jyyos.Labyrinth.Find.First.{find_first_empty_space-Searched}
use jyyos.Labyrinth.Connected.{is_minus_one, is_nowhere}
use jyyos.Labyrinth.Connected.Reach.{Cell}
use jyyos.Labyrinth.Move.{step_to, place, walk, move_player}
use Prim.Native.String.{String}
use text.Mathlib.Text.{◌==◌ as str_eq}
use text.Mathlib.TextEquality.{eq_iff}

abbrev pub IsInside : Labyrinth → Cell → Type 0
IsInside lab (i, j) = (i < lab.rows) × (j < lab.cols)

-- The cell (i', j') lies one step from (i, j) in the named direction.
abbrev pub Toward : String → Cell → Cell → Type 0
Toward d (i, j) (i', j') =
    (d ≡ "up") × (i' + 1 ≡ i) × (j' ≡ j)
    ⊎ (d ≡ "down") × (i + 1 ≡ i') × (j' ≡ j)
    ⊎ (d ≡ "left") × (i' ≡ i) × (j' + 1 ≡ j)
    ⊎ (d ≡ "right") × (i' ≡ i) × (j + 1 ≡ j')

-- p is the first cell, in row-major order, that holds v.
abbrev pub IsFirst : Labyrinth → ℕ → Cell → Type 0
IsFirst lab v (i, j) =
    IsInside lab (i, j)
    × (lab.map i j ≡ v)
    × ((i' j' : ℕ) → Before i' j' i j → j' < lab.cols → lab.map i' j' ≢ v)

abbrev pub IsMissing : Labyrinth → ℕ → Type 0
IsMissing lab v = (i j : ℕ) → i < lab.rows → j < lab.cols → lab.map i j ≢ v

-- The outcomes of a move.
pub data Moved (lab : Labyrinth) (id : ℕ) (d : String) : Bool × Labyrinth → Type 0 where
  full : IsMissing lab id → IsMissing lab b'.' → Moved lab id d (false, lab)
  placed :
      (p : Cell)
      → IsMissing lab id
      → IsFirst lab b'.' p
      → Moved lab id d (true, record lab { map = write lab.map p.0 p.1 id })
  blocked :
      (p : Cell)
      → IsFirst lab id p
      → ((q : Cell) → Toward d p q → IsInside lab q → lab.map q.0 q.1 ≢ b'.')
      → Moved lab id d (false, lab)
  stepped :
      (p q : Cell)
      → IsFirst lab id p
      → Toward d p q
      → IsInside lab q
      → lab.map q.0 q.1 ≡ b'.'
      → Moved lab id d (true, record lab { map = write (write lab.map q.0 q.1 id) p.0 p.1 b'.' })

empty-IsInside :
    (lab : Labyrinth) (a b : ℕ)
    → is_empty_space lab (pos a) (pos b) ≡ true
    → IsInside lab (a, b) × (lab.map a b ≡ b'.')
unfolding is_empty_space
empty-IsInside lab a b h = ground arith

IsInside-empty :
    (lab : Labyrinth) (a b : ℕ)
    → IsInside lab (a, b)
    → lab.map a b ≡ b'.'
    → is_empty_space lab (pos a) (pos b) ≡ true
unfolding is_empty_space
IsInside-empty lab a b h e = ground arith

empty-negsuc_row : (lab : Labyrinth) (a : ℕ) (col : ℤ) → is_empty_space lab (negsuc a) col ≡ false
unfolding is_empty_space
empty-negsuc_row lab a col = refl

empty-negsuc_col : (lab : Labyrinth) (row : ℤ) (b : ℕ) → is_empty_space lab row (negsuc b) ≡ false
unfolding is_empty_space
empty-negsuc_col lab row b = ground arith

-- A target that is not empty blocks every cell that it could be.
empty-blocks :
    (lab : Labyrinth) {row col : ℤ} (q : Cell)
    → (row ≡ pos q.0) × (col ≡ pos q.1)
    → is_empty_space lab row col ≡ false
    → IsInside lab q
    → lab.map q.0 q.1 ≢ b'.'
empty-blocks lab q (er, ec) shut i e = cc (IsInside-empty lab q.0 q.1 i e)

-- One direction: the target, as the code computes it, is the one cell that lies that way.
step_to-Moved :
    (lab : Labyrinth) (id : ℕ) (d : String) (p : Cell) (row col : ℤ)
    → IsFirst lab id p
    → ((q : Cell) → Toward d p q → (row ≡ pos q.0) × (col ≡ pos q.1))
    → ((a b : ℕ) → row ≡ pos a → col ≡ pos b → Toward d p (a, b))
    → Moved lab id d (step_to lab id (here p.0 p.1) row col)
unfolding step_to
step_to-Moved lab id d p (negsuc a) col first only toward =
    rw (empty-negsuc_row lab a col)
      (blocked p first (λ q t. empty-blocks lab q (only q t) (empty-negsuc_row lab a col)))
step_to-Moved lab id d p (pos a) (negsuc b) first only toward =
    rw (empty-negsuc_col lab (pos a) b)
      (blocked p first (λ q t. empty-blocks lab q (only q t) (empty-negsuc_col lab (pos a) b)))
step_to-Moved lab id d p (pos a) (pos b) first only toward =
    elim (Bool-cases (is_empty_space lab (pos a) (pos b))) [
      | inl free ↦
          let (i, e) = empty-IsInside lab a b free in
          rw free (stepped p (a, b) first (toward a b refl refl) i e)
      | inr shut ↦ rw shut (blocked p first (λ q t. empty-blocks lab q (only q t) shut))
    ]

place-Moved :
    (lab : Labyrinth) (id : ℕ) (d : String) {space : Position}
    → IsMissing lab id
    → Searched (λ i j. lab.map i j == b'.') lab.rows lab.cols space
    → Moved lab id d (
        if not (is_minus_one space.row) && not (is_minus_one space.col)
        then (true, record lab { map = write lab.map (to_ℕ space.row) (to_ℕ space.col) id })
        else (false, lab))
place-Moved lab id d missing (found i j hi hj t first) =
    placed (i, j) missing ((hi, hj), ground arith, λ i' j' b h e. ground (arith, first i' j' b h))
place-Moved lab id d missing (absent none_left) =
    full missing (λ i j hi hj e. ground (arith, none_left i j hi hj))

apart : (a b : String) {d : String} → str_eq a b ≡ false → d ≡ a → d ≢ b
apart a b differ x y = cc ((eq_iff a b).1 (sym x ∙ y))

-- The four names tell the directions apart.
Toward-up :
    {d : String} (p q : Cell)
    → d ≡ "up"
    → Toward d p q
    → (dec (pos p.0) ≡ pos q.0) × (pos p.1 ≡ pos q.1)
Toward-up p q e t =
    let not_down = apart "up" "down" refl e in
    let not_left = apart "up" "left" refl e in
    let not_right = apart "up" "right" refl e in ground arith

Toward-down :
    {d : String} (p q : Cell)
    → d ≡ "down"
    → Toward d p q
    → (pos (p.0 + 1) ≡ pos q.0) × (pos p.1 ≡ pos q.1)
Toward-down p q e t =
    let not_up = apart "down" "up" refl e in
    let not_left = apart "down" "left" refl e in
    let not_right = apart "down" "right" refl e in ground arith

Toward-left :
    {d : String} (p q : Cell)
    → d ≡ "left"
    → Toward d p q
    → (pos p.0 ≡ pos q.0) × (dec (pos p.1) ≡ pos q.1)
Toward-left p q e t =
    let not_up = apart "left" "up" refl e in
    let not_down = apart "left" "down" refl e in
    let not_right = apart "left" "right" refl e in ground arith

Toward-right :
    {d : String} (p q : Cell)
    → d ≡ "right"
    → Toward d p q
    → (pos p.0 ≡ pos q.0) × (pos (p.1 + 1) ≡ pos q.1)
Toward-right p q e t =
    let not_up = apart "right" "up" refl e in
    let not_down = apart "right" "down" refl e in
    let not_left = apart "right" "left" refl e in ground arith

not-Toward :
    {d : String} (p q : Cell)
    → str_eq d "up" ≡ false
    → str_eq d "down" ≡ false
    → str_eq d "left" ≡ false
    → str_eq d "right" ≡ false
    → ¬ Toward d p q
not-Toward {d} p q a b c e t =
    ground
      (arith, (eq_iff d "up").1, (eq_iff d "down").1, (eq_iff d "left").1, (eq_iff d "right").1)

walk-Moved :
    (lab : Labyrinth) (id : ℕ) (d : String) (p : Cell)
    → IsFirst lab id p
    → Moved lab id d (walk lab id d (here p.0 p.1))
unfolding walk
walk-Moved lab id d p first = elim (Bool-cases (str_eq d "up")) [
  | inl e ↦
      let named = (eq_iff d "up").0 e in
      rw (e) (
        step_to-Moved lab id d p _ _ first (λ q t. Toward-up p q named t) (λ a b x y. ground arith))
  | inr not_up ↦ elim (Bool-cases (str_eq d "down")) [
    | inl e ↦
        let named = (eq_iff d "down").0 e in
        rw (not_up, e)
          (step_to-Moved lab id d p _ _ first (λ q t. Toward-down p q named t)
            (λ a b x y. ground arith))
    | inr not_down ↦ elim (Bool-cases (str_eq d "left")) [
      | inl e ↦
          let named = (eq_iff d "left").0 e in
          rw (not_up, not_down, e)
            (step_to-Moved lab id d p _ _ first (λ q t. Toward-left p q named t)
              (λ a b x y. ground arith))
      | inr not_left ↦ elim (Bool-cases (str_eq d "right")) [
        | inl e ↦
            let named = (eq_iff d "right").0 e in
            rw (not_up, not_down, not_left, e)
              (step_to-Moved lab id d p _ _ first (λ q t. Toward-right p q named t)
                (λ a b x y. ground arith))
        | inr not_right ↦
            rw (not_up, not_down, not_left, not_right)
              (blocked p first
                (λ q t. absurd (not-Toward p q not_up not_down not_left not_right t)))
      ]
    ]
  ]
]

-- Every call of movePlayer ends in one of four ways. A player that is not on the map is put on the
-- first '.', or nothing changes if there is none. The first cell of a player that is there moves
-- to the neighbouring cell in the named direction if that lies on the map and is '.', and the old
-- cell becomes '.'; otherwise, or if the direction has no such name, nothing changes. The result
-- is true in the two cases in which the player is put or moved, and false in the others.
pub move_player-Moved :
    (lab : Labyrinth) (id : ℕ) (d : String) → Moved lab id d (move_player lab id d)
unfolding move_player
move_player-Moved lab id d = start (find_player-Searched lab id)
  where
    start :
        {from : Position}
        → Searched (λ i j. lab.map i j == id) lab.rows lab.cols from
        → Moved lab id d (if is_nowhere from then place lab id else walk lab id d from)
    start (found i j hi hj t first) =
        walk-Moved lab id d (i, j)
          ((hi, hj), ground arith, λ i' j' b h e. ground (arith, first i' j' b h))
    start (absent none_left) =
        place-Moved lab id d (λ i j hi hj e. ground (arith, none_left i j hi hj))
          (find_first_empty_space-Searched lab)
