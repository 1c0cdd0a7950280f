-- ===== src/Labyrinth/Connected/Reach.antt =====
-- labyrinth.c, isConnected: the connectedness that it decides, as a relation on cells.
use jyyos.Prelude.{ℕ, ◌+◌, ◌<◌, ◌≡◌, ◌⊎◌, true, arith}
use jyyos.Labyrinth.{Labyrinth, is_open_cell}

abbrev pub Cell : Type 0
Cell = ℕ × ℕ

-- A cell of the map that holds '.' or a player.
abbrev pub IsOpen : Labyrinth → Cell → Type 0
IsOpen lab (i, j) = (i < lab.rows) × (j < lab.cols) × (is_open_cell (lab.map i j) ≡ true)

-- One step up, down, left or right.
abbrev pub Next : Cell → Cell → Type 0
Next (i, j) (i', j') =
    (i' + 1 ≡ i) × (j' ≡ j)
    ⊎ (i + 1 ≡ i') × (j' ≡ j)
    ⊎ (i' ≡ i) × (j' + 1 ≡ j)
    ⊎ (i' ≡ i) × (j + 1 ≡ j')

-- A walk whose cells after the first are open.
pub data Reach (lab : Labyrinth) (p : Cell) : Cell → Type 0 where
  stay : Reach lab p p
  step : {q r : Cell} → Reach lab p q → Next q r → IsOpen lab r → Reach lab p r

pub Next-symm : (p q : Cell) → Next p q → Next q p
Next-symm p q n = ground arith

pub Reach-trans : {lab : Labyrinth} {p q r : Cell} → Reach lab p q → Reach lab q r → Reach lab p r
Reach-trans a stay = a
Reach-trans a (step b n o) = step (Reach-trans a b) n o

pub Reach-symm : {lab : Labyrinth} {p q : Cell} → IsOpen lab p → Reach lab p q → Reach lab q p
Reach-symm open_p stay = stay
Reach-symm open_p (step {q} {r} a n o) =
    Reach-trans (step stay (Next-symm q r n) (Reach-end open_p a)) (Reach-symm open_p a)
  where
    Reach-end : {lab : Labyrinth} {p q : Cell} → IsOpen lab p → Reach lab p q → IsOpen lab q
    Reach-end o stay = o
    Reach-end o (step _ _ o') = o'
