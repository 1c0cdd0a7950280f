-- ===== src/Labyrinth/Storage/Total.antt =====
-- labyrinth.c, loadMap: its loop ends on every file.
use jyyos.Prelude.{
  ℕ, zero, suc, ◌+◌, ◌<◌, ◌≤◌, ◌≡◌, ◌≢◌, refl, inl, inr, true, false, ltb, ltb→lt, arith,
}
use jyyos.Prelude.{Option, none, some, Bool-cases}
use jyyos.Prelude.CText.{Bytes, fgets, until_nul, chop_newline}
use jyyos.Labyrinth.{Labyrinth, max_rows, max_cols}
use jyyos.Labyrinth.Storage.{
  Result, ok, fault, stuck, Loading, add_line, load_lines, finish_load, load_map,
}

add_line-ne-stuck : (s : Loading) (text : Bytes) → add_line s text ≢ stuck
unfolding add_line
add_line-ne-stuck s text e = ground arith

rows-add_line : (s s' : Loading) (text : Bytes) → add_line s text ≡ ok s' → s'.rows ≡ s.rows + 1
unfolding add_line
rows-add_line s s' text e = ground arith

then-ne-stuck :
    (r : Result Loading) (continue : Loading → Result Loading)
    → r ≢ stuck
    → ((s : Loading) → r ≡ ok s → continue s ≢ stuck)
    → elim r [ ok s ↦ continue s | fault ↦ fault | stuck ↦ stuck ] ≢ stuck
then-ne-stuck (ok s) continue h k = k s refl
then-ne-stuck fault continue h k = cc
then-ne-stuck stuck continue h k = absurd (h refl)

-- One round, whatever `fgets` returned.
round-ne-stuck :
    (o : Option (Bytes × Bytes)) (rounds : ℕ) (s : Loading)
    → ((rest : Bytes) (s' : Loading)
        → s.rows < max_rows
        → s'.rows ≡ s.rows + 1
        → load_lines rounds rest s' ≢ stuck)
    → elim o [
      | none ↦ ok s
      | some (buffer, rest) ↦ elim (ltb s.rows max_rows) [
        | true ↦ elim (add_line s (chop_newline (until_nul buffer))) [
          | ok s' ↦ load_lines rounds rest s'
          | fault ↦ fault
          | stuck ↦ stuck
        ]
        | false ↦ ok s
      ]
    ]
      ≢ stuck
round-ne-stuck none rounds s ih = cc
round-ne-stuck (some (buffer, rest)) rounds s ih = elim (Bool-cases (ltb s.rows max_rows)) [
  | inl room ↦
      let text = chop_newline (until_nul buffer) in
      rw room (
        then-ne-stuck (add_line s text) (load_lines rounds rest) (add_line-ne-stuck s text)
          (λ s' e. ih rest s' (ltb→lt s.rows max_rows room) (rows-add_line s s' text e)))
  | inr full ↦ rw full (cc)
]

load_lines-ne-stuck :
    (rounds : ℕ) (file : Bytes) (s : Loading)
    → s.rows ≤ max_rows
    → max_rows < rounds + s.rows
    → load_lines rounds file s ≢ stuck
unfolding load_lines
load_lines-ne-stuck zero file s small enough = absurd (omega arith)
load_lines-ne-stuck (suc rounds) file s small enough =
    round-ne-stuck (fgets (max_cols + 2) file) rounds s
      (λ rest s' room e. load_lines-ne-stuck rounds rest s' (omega arith) (omega arith))

-- Whatever the file holds, the loop of loadMap ends within MAX_ROWS + 1 rounds: loadMap succeeds,
-- fails, or writes outside a row.
pub load_map-ne-stuck : (lab : Labyrinth) (file : Option Bytes) → load_map lab file ≢ stuck
unfolding load_map
load_map-ne-stuck lab none = cc
load_map-ne-stuck lab (some file) =
    finish (load_lines 101 file (record { map = lab.map; rows = 0; cols = 0 })) (
      load_lines-ne-stuck 101 file (record { map = lab.map; rows = 0; cols = 0 }) (omega arith)
        (omega arith))
  where
    finish :
        (r : Result Loading)
        → r ≢ stuck
        → elim r [ ok s ↦ ok (finish_load lab s) | fault ↦ fault | stuck ↦ stuck ] ≢ stuck
    finish (ok s) h = cc
    finish fault h = cc
    finish stuck h = absurd (h refl)
