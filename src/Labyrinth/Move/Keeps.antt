-- ===== src/Labyrinth/Move/Keeps.antt =====
-- labyrinth.c, movePlayer: what a move leaves alone.
use jyyos.Prelude.{ℕ, ◌≡◌, ◌≢◌, refl, ◌↔◌, Bool, true, arith}
use jyyos.Labyrinth.{Labyrinth, Grid, write, is_valid_player}
use jyyos.Labyrinth.Connected.Reach.{Cell, IsOpen, Reach, stay, step}
use jyyos.Labyrinth.Connected.Decide.{Connected}
use jyyos.Labyrinth.Move.{move_player}
use jyyos.Labyrinth.Move.Outcome.{
  IsInside, IsMissing, Moved, full, placed, blocked, stepped, move_player-Moved,
}
use Prim.Native.String.{String}

-- Same size, and the same open cells.
pub record SameShape (lab lab' : Labyrinth) : Type 0 where
  pub rows : lab'.rows ≡ lab.rows
  pub cols : lab'.cols ≡ lab.cols
  pub open_cells : (q : Cell) → IsOpen lab' q ↔ IsOpen lab q

Moved-SameShape :
    {lab : Labyrinth} {id : ℕ} {d : String} {r : Bool × Labyrinth}
    → is_valid_player id ≡ true
    → Moved lab id d r
    → SameShape lab r.1
Moved-SameShape v (full _ _) = record {
  rows = refl;
  cols = refl;
  open_cells = λ q. (λ o. o, λ o. o);
}
Moved-SameShape v (placed p _ (i, e, _)) = record {
  rows = refl;
  cols = refl;
  open_cells = λ q. (ground arith, ground arith);
}
Moved-SameShape v (blocked _ _ _) = record {
  rows = refl;
  cols = refl;
  open_cells = λ q. (λ o. o, λ o. o);
}
Moved-SameShape v (stepped p q (i, e, _) t j f) = record {
  rows = refl;
  cols = refl;
  open_cells = λ c. (ground arith, ground arith);
}

-- A move of a player '0' to '9' keeps the size of the map and which of its cells are open.
pub move_player-SameShape :
    (lab : Labyrinth) (id : ℕ) (d : String)
    → is_valid_player id ≡ true
    → SameShape lab (move_player lab id d).1
move_player-SameShape lab id d v = Moved-SameShape v (move_player-Moved lab id d)

Reach-shape :
    {lab lab' : Labyrinth} {p q : Cell} → SameShape lab lab' → Reach lab p q → Reach lab' p q
Reach-shape s stay = stay
Reach-shape s (step {q} {r} w n o) = step (Reach-shape s w) n ((s.open_cells r).1 o)

-- If the open cells of the map are connected, then they are so after the move of a player '0' to
-- '9', whether it succeeds or not.
pub move_player-Connected :
    (lab : Labyrinth) (id : ℕ) (d : String)
    → is_valid_player id ≡ true
    → Connected lab
    → Connected (move_player lab id d).1
move_player-Connected lab id d v c p q op oq =
    let s = move_player-SameShape lab id d v in
    Reach-shape s (c p q ((s.open_cells p).0 op) ((s.open_cells q).0 oq))

-- The character v stands in at most one cell of the map.
abbrev pub AtMostOnce : Labyrinth → ℕ → Type 0
AtMostOnce lab v =
    (p q : Cell)
    → IsInside lab p
    → IsInside lab q
    → lab.map p.0 p.1 ≡ v
    → lab.map q.0 q.1 ≡ v
    → (p.0 ≡ q.0) × (p.1 ≡ q.1)

abbrev pub IsPresent : Labyrinth → ℕ → Type 0
IsPresent lab v = (p : Cell) × IsInside lab p × (lab.map p.0 p.1 ≡ v)

-- The other characters but '.' keep their cells; the player is on the map after a success, and
-- stays in at most one cell.
pub record KeepsPlayers (lab : Labyrinth) (id : ℕ) (r : Bool × Labyrinth) : Type 0 where
  pub others : (v i j : ℕ) → v ≢ id → v ≢ b'.' → (r.1.map i j ≡ v) ↔ (lab.map i j ≡ v)
  pub present : r.0 ≡ true → IsPresent r.1 id
  pub once : AtMostOnce lab id → AtMostOnce r.1 id

abbrev after_step : Labyrinth → ℕ → Cell → Cell → Grid
after_step lab id p q = write (write lab.map q.0 q.1 id) p.0 p.1 b'.'

others-step :
    (lab : Labyrinth) (id : ℕ) (p q : Cell) (v i j : ℕ)
    → lab.map p.0 p.1 ≡ id
    → lab.map q.0 q.1 ≡ b'.'
    → v ≢ id
    → v ≢ b'.'
    → (after_step lab id p q i j ≡ v) ↔ (lab.map i j ≡ v)
others-step lab id p q v i j e f n m = (ground arith, ground arith)

present-step :
    (lab : Labyrinth) (id : ℕ) (p q : Cell)
    → lab.map p.0 p.1 ≡ id
    → lab.map q.0 q.1 ≡ b'.'
    → id ≢ b'.'
    → after_step lab id p q q.0 q.1 ≡ id
present-step lab id p q e f n = ground arith

-- The new cell is the player's only cell if the old one was.
once-step :
    (lab : Labyrinth) (id : ℕ) (p q a : Cell)
    → AtMostOnce lab id
    → IsInside lab p
    → lab.map p.0 p.1 ≡ id
    → id ≢ b'.'
    → IsInside lab a
    → after_step lab id p q a.0 a.1 ≡ id
    → (a.0 ≡ q.0) × (a.1 ≡ q.1)
once-step lab id p q a u ip e n ia ea = ground (arith, u a p ia ip)

once-place :
    (lab : Labyrinth) (id : ℕ) (p a : Cell)
    → IsMissing lab id
    → IsInside lab a
    → write lab.map p.0 p.1 id a.0 a.1 ≡ id
    → (a.0 ≡ p.0) × (a.1 ≡ p.1)
once-place lab id p a missing ia ea = ground (arith, missing a.0 a.1)

same_cell :
    (a b q : Cell)
    → (a.0 ≡ q.0) × (a.1 ≡ q.1)
    → (b.0 ≡ q.0) × (b.1 ≡ q.1)
    → (a.0 ≡ b.0) × (a.1 ≡ b.1)
same_cell a b q x y = omega arith

Moved-KeepsPlayers :
    {lab : Labyrinth} {id : ℕ} {d : String} {r : Bool × Labyrinth}
    → id ≢ b'.'
    → Moved lab id d r
    → KeepsPlayers lab id r
Moved-KeepsPlayers v (full _ _) = record {
  others = λ c i j _ _. (λ e. e, λ e. e);
  present = λ e. cc;
  once = λ u. u;
}
Moved-KeepsPlayers v (placed p missing (i, e, _)) = record {
  others = λ c i j n m. (ground arith, ground arith);
  present = λ _. (p, i, ground arith);
  once = λ u a b ia ib ea eb.
      same_cell a b p (once-place _ _ p a missing ia ea) (once-place _ _ p b missing ib eb);
}
Moved-KeepsPlayers v (blocked _ _ _) = record {
  others = λ c i j _ _. (λ e. e, λ e. e);
  present = λ e. cc;
  once = λ u. u;
}
Moved-KeepsPlayers {lab} {id} v (stepped p q (i, e, _) t j f) = record {
  others = λ c k l. others-step lab id p q c k l e f;
  present = λ _. (q, j, present-step lab id p q e f v);
  once = λ u a b ia ib ea eb.
      same_cell a b q (once-step lab id p q a u i e v ia ea) (once-step lab id p q b u i e v ib eb);
}

-- A move of a player that is not '.' leaves every other player and every wall in its cell. If it
-- succeeds the player is on the map, and a player that was in at most one cell still is.
pub move_player-KeepsPlayers :
    (lab : Labyrinth) (id : ℕ) (d : String) → id ≢ b'.' → KeepsPlayers lab id (move_player lab id d)
move_player-KeepsPlayers lab id d v = Moved-KeepsPlayers v (move_player-Moved lab id d)
