-- ===== src/Hanoi/Frames.antt =====
-- hanoi-nr.c: the recursion on an array of 64 frames, one statement for each round of the loop.
pub mod Runs
use jyyos.Prelude.{ℕ, zero, suc, ◌+◌, ◌-◌, ltb, ◌==◌, if◌then◌else◌, List, [], ◌∷◌, ◌++◌, length}
use jyyos.Prelude.{none, some}
use jyyos.Hanoi.{Move, move, count_of}

pub record Frame : Type 0 where
  pub pc : ℕ
  pub n : ℕ
  pub from : ℕ
  pub to : ℕ
  pub via : ℕ
  pub c1 : ℕ
  pub c2 : ℕ

-- The frames, the top one first; what the last return has returned; and what is printed.
pub record Machine : Type 0 where
  pub stack : List Frame
  pub retval : ℕ
  pub printed : List Move

-- The end of the loop; a frame written past the array, a failed assert or an int that overflows; a
-- round.
pub data Step : Type 0 where
  finished faulted : Step
  running : Machine → Step

abbrev pub max_frames : ℕ
max_frames = 64

abbrev pub new_frame : ℕ → ℕ → ℕ → ℕ → Frame
new_frame n from to via = record { pc = 0; n = n; from = from; to = to; via = via; c1 = 0; c2 = 0 }

-- The macro call, in a frame f over the frames `rest`, which goes on at the next statement.
abbrev pub call : Machine → Frame → List Frame → Frame → Step
call m f rest g =
    if ltb (length (f ∷ rest)) max_frames
    then running (record m { stack = g ∷ record f { pc = f.pc + 1 } ∷ rest })
    else faulted

-- The macro ret.
abbrev pub ret : Machine → List Frame → ℕ → Step
ret m rest value = running (record m { stack = rest; retval = value })

abbrev pub next : Machine → Frame → List Frame → Step
next m f rest = running (record m { stack = record f { pc = f.pc + 1 } ∷ rest })

-- The switch on the pc.
unfoldable pub execute : Machine → Frame → List Frame → Step
execute m f rest =
    if f.pc == 0
    then (if f.n == 1
        then ret (record m { printed = m.printed ++ move f.from f.to ∷ [] }) rest 1
        else next m f rest)
    else if f.pc == 1
    then call m f rest (new_frame (f.n - 1) f.from f.via f.to)
    else if f.pc == 2
    then next m (record f { c1 = m.retval }) rest
    else if f.pc == 3
    then call m f rest (new_frame 1 f.from f.to f.via)
    else if f.pc == 4
    then call m f rest (new_frame (f.n - 1) f.via f.to f.from)
    else if f.pc == 5
    then next m (record f { c2 = m.retval }) rest
    else if f.pc == 6
    then elim (count_of f.c1 f.c2) [ none ↦ faulted | some total ↦ ret m rest total ]
    else faulted

unfoldable pub step : Machine → List Frame → Step
step m [] = finished
step m (f ∷ rest) = execute m f rest

pub data Result : Type 0 where
  returned : ℕ → List Move → Result
  fault stuck : Result

unfoldable pub run : ℕ → Machine → Result
run zero m = stuck
run (suc fuel) m = elim (step m m.stack) [
  | finished ↦ returned m.retval m.printed
  | faulted ↦ fault
  | running m' ↦ run fuel m'
]

unfoldable pub hanoi_frames : ℕ → ℕ → ℕ → ℕ → ℕ → Result
hanoi_frames fuel n from to via =
    run fuel (record { stack = new_frame n from to via ∷ []; retval = 0; printed = [] })
