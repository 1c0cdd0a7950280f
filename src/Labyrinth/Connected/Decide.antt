-- ===== src/Labyrinth/Connected/Decide.antt =====
-- labyrinth.c, isConnected: the flood from the first '.' and the check after it decide whether the
-- open cells of the map are connected.
use jyyos.Prelude.{ℕ, ◌*◌, ◌<◌, ◌≡◌, ◌≢◌, refl, ◌⊎◌, inl, inr, Bool, true, false, not}
use jyyos.Prelude.{◌&&◌, ◌==◌, Option, none, some, arith}
use jyyos.Labyrinth.{Labyrinth, Position, is_open_cell}
use jyyos.Labyrinth.Find.First.{
  Searched, found, absent, scan_rows-Searched, find_first_empty_space-Searched,
}
use jyyos.Labyrinth.Connected.{Visited, is_nowhere, dfs, all_visited, is_connected}
use jyyos.Labyrinth.Connected.Reach.{Cell, IsOpen, Reach, stay, step, Reach-trans, Reach-symm}
use jyyos.Labyrinth.Connected.Measure.{unseen_none}
use jyyos.Labyrinth.Connected.Explore.{Extends, dfs-Floods}

abbrev unvisited : Labyrinth → Visited → ℕ → ℕ → Bool
unvisited lab vis i j = is_open_cell (lab.map i j) && not (vis i j)

-- The open cells are connected with one another.
abbrev pub Connected : Labyrinth → Type 0
Connected lab = (p q : Cell) → IsOpen lab p → IsOpen lab q → Reach lab p q

-- No cell of the map is '.'.
abbrev pub HasNoSpace : Labyrinth → Type 0
HasNoSpace lab = (i j : ℕ) → i < lab.rows → j < lab.cols → lab.map i j ≢ b'.'

-- What isConnected promises.
pub record Decides (lab : Labyrinth) (result : Option Bool) : Type 0 where
  pub answer : Bool
  pub returns : result ≡ some answer
  pub accepts : answer ≡ true → HasNoSpace lab ⊎ Connected lab
  pub rejects :
      answer ≡ false → (p : Cell) × (q : Cell) × IsOpen lab p × IsOpen lab q × (¬ Reach lab p q)

-- The check after the flood: true if it met every open cell, and otherwise there is one that it
-- did not meet.
record Checks (lab : Labyrinth) (vis : Visited) (answer : Bool) : Type 0 where
  all : answer ≡ true → (q : Cell) → IsOpen lab q → vis q.0 q.1 ≡ true
  missed : answer ≡ false → (q : Cell) × IsOpen lab q × (vis q.0 q.1 ≡ false)

Checks-Searched :
    (lab : Labyrinth) (vis : Visited) {p : Position}
    → Searched (unvisited lab vis) lab.rows lab.cols p
    → Checks lab vis (is_nowhere p)
Checks-Searched lab vis (found i j hi hj t first) = record {
  all = λ e. cc;
  missed = λ e. ((i, j), ground arith, ground arith);
}
Checks-Searched lab vis (absent none_left) = record {
  all = λ e q o. ground (arith, none_left q.0 q.1);
  missed = λ e. cc;
}

all_visited-Checks : (lab : Labyrinth) (vis : Visited) → Checks lab vis (all_visited lab vis)
unfolding all_visited
all_visited-Checks lab vis = Checks-Searched lab vis (
    scan_rows-Searched (unvisited lab vis) lab.cols 0 lab.rows lab.rows (omega arith)
      (λ i' j' h. absurd (omega arith)))

nothing_visited : Visited
nothing_visited = λ i j. false

module _ {lab : Labyrinth} {p : Cell} {vis : Visited}
    (flood : Extends lab p (λ i j. false) vis) where
  visited-Reach : (q : Cell) → vis q.0 q.1 ≡ true → Reach lab p q
  visited-Reach q h = elim (flood.sound q h) [ inl e ↦ absurd (cc) | inr w ↦ w ]

  Reach-visited : {q : Cell} → vis p.0 p.1 ≡ true → Reach lab p q → vis q.0 q.1 ≡ true
  Reach-visited b stay = b
  Reach-visited b (step {q} {r} w n o) = elim (flood.closed q r (Reach-visited b w) n o) [
    | inl e ↦ absurd (cc)
    | inr h ↦ h
  ]

Decides-flood :
    (lab : Labyrinth) (p : Cell) {vis : Visited} {answer : Bool}
    → IsOpen lab p
    → Extends lab p (λ i j. false) vis
    → vis p.0 p.1 ≡ true
    → Checks lab vis answer
    → Decides lab (some answer)
Decides-flood lab p {answer = answer} o flood begun check = record {
  answer = answer;
  returns = refl;
  accepts = λ e. inr (λ q r oq or.
      Reach-trans (Reach-symm o (visited-Reach flood q (check.all e q oq)))
        (visited-Reach flood r (check.all e r or)));
  rejects = λ e.
      let (q, oq, new) = check.missed e in
      (p, q, o, oq, λ w. absurd (visited-new (Reach-visited flood begun w) new));
}
  where
    visited-new : {b : Bool} → b ≡ true → b ≡ false → ⊥
    visited-new h k = cc

dot-IsOpen :
    (lab : Labyrinth) (i j : ℕ)
    → i < lab.rows
    → j < lab.cols
    → (lab.map i j == b'.') ≡ true
    → IsOpen lab (i, j)
dot-IsOpen lab i j hi hj t = ground arith

Decides-start :
    (lab : Labyrinth) {start : Position}
    → Searched (λ i j. lab.map i j == b'.') lab.rows lab.cols start
    → Decides lab (elim (is_nowhere start) [
      | true ↦ some true
      | false ↦ elim (dfs (lab.rows * lab.cols) lab start.row start.col (λ i j. false)) [
        | some vis ↦ some (all_visited lab vis)
        | none ↦ none
      ]
    ])
Decides-start lab (found i j hi hj t first) =
    let o = dot-IsOpen lab i j hi hj t in
    let run =
      dfs-Floods lab (lab.rows * lab.cols) (i, j) (λ i j. false) o refl
        (omega (arith, unseen_none lab.cols lab.rows)) in
    rw run.returns
      (Decides-flood lab (i, j) o run.extends run.begun (all_visited-Checks lab run.out))
Decides-start lab (absent none_found) = record {
  answer = true;
  returns = refl;
  accepts = λ e. inl (λ i j hi hj d. ground (arith, none_found i j hi hj));
  rejects = λ e. cc;
}

-- isConnected always returns: rows * cols deep is enough for the recursion. If it returns true,
-- then the map has no '.', or there is a walk through open cells between any two open cells; if it
-- returns false, then two open cells have no such walk between them.
pub is_connected-Decides : (lab : Labyrinth) → Decides lab (is_connected lab)
unfolding is_connected
is_connected-Decides lab = Decides-start lab (find_first_empty_space-Searched lab)
