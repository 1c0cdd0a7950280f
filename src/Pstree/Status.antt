-- ===== src/Pstree/Status.antt =====
-- minilab/pstree, GetProcessids: the fields that it finds in a status file.
use jyyos.Prelude.{
  ℕ, zero, suc, ◌+◌, ◌<◌, ◌≤◌, ◌≡◌, ◌≢◌, refl, ap, ◌∙◌, arith, Bool, true, false, not, ◌&&◌, ◌||◌,
  ltb, ◌==◌, if◌then◌else◌, Option, some, List, [], ◌∷◌, ◌++◌, length, length-append, take,
  append_assoc,
}
use jyyos.Prelude.CText.{Bytes, newline, IsLine, unlines, fgets-line, until_nul-line}
use jyyos.Pstree.{
  starts_with, is_empty, cut_newline, pid_name, ppid_name, field_of, read_field, read_fields,
  is_pid, path_of, status_file, read_process,
}

-- A line of another field, which fits in the buffer.
abbrev pub IsOther : Bytes → Type 0
IsOther l =
    IsLine l
    × (length l + 1 < 256)
    × (starts_with (l ++ newline ∷ []) pid_name ≡ false)
    × (starts_with (l ++ newline ∷ []) ppid_name ≡ false)

abbrev pub AllOther : List Bytes → Type 0
AllOther [] = Unit {0}
AllOther (l ∷ ls) = IsOther l × AllOther ls

-- A value that fits in its array: not empty, and no blank in front.
abbrev pub IsValue : Bytes → Type 0
IsValue [] = ⊥
IsValue (b ∷ bs) = (b ≢ b' ') × (b ≢ 9) × IsLine (b ∷ bs) × (length (b ∷ bs) ≤ 31)

-- A line of a field with its value behind a tab.
abbrev pub field_line : Bytes → Bytes → Bytes
field_line name value = name ++ (9 ∷ value)

cut_newline-take :
    (n : ℕ) (l : Bytes) → IsLine l → length l ≤ n → cut_newline (take n (l ++ newline ∷ [])) ≡ l
cut_newline-take zero [] h k = refl
cut_newline-take zero (b ∷ l) h k = absurd (omega arith)
cut_newline-take (suc n) [] h k = refl
cut_newline-take (suc n) (b ∷ l) (z, nl, h) k =
    let more : (b == newline) ≡ false = ground arith in
    rw more (ap (λ t. b ∷ t) (cut_newline-take n l h (omega arith)))

field_of-value : (v : Bytes) → IsValue v → field_of (9 ∷ (v ++ newline ∷ [])) ≡ v
unfolding field_of
field_of-value [] h = absurd h
field_of-value (b ∷ v) (space, tab, line, short) =
    let stay : (b == b' ' || b == 9) ≡ false = ground arith in
    rw stay (cut_newline-take 31 (b ∷ v) line short)

read_field-pid :
    (v : Bytes) (s : Bytes × Bytes)
    → IsValue v
    → read_field (field_line pid_name v ++ newline ∷ []) s ≡ (v, s.1)
unfolding read_field
read_field-pid v s h = ap (λ x. (x, s.1)) (field_of-value v h)

read_field-ppid :
    (v : Bytes) (s : Bytes × Bytes)
    → IsValue v
    → read_field (field_line ppid_name v ++ newline ∷ []) s ≡ (s.0, v)
unfolding read_field
read_field-ppid v s h = ap (λ x. (s.0, x)) (field_of-value v h)

read_field-other :
    (l : Bytes) (s : Bytes × Bytes) → IsOther l → read_field (l ++ newline ∷ []) s ≡ s
unfolding read_field
read_field-other l s (line, short, a, b) = rw (read_field, a, b) refl

-- Both fields have been found.
abbrev complete : Bytes × Bytes → Bool
complete s = not (is_empty s.0) && not (is_empty s.1)

read_fields-line :
    (fuel : ℕ) (l file : Bytes) (s s' : Bytes × Bytes)
    → IsLine l
    → length l + 1 < 256
    → read_field (l ++ newline ∷ []) s ≡ s'
    → read_fields (suc fuel) (l ++ newline ∷ file) s
      ≡ (if complete s' then some s' else read_fields fuel file s')
unfolding read_fields
read_fields-line fuel l file s s' line short e =
    rw (read_fields, fgets-line 256 l file line short, until_nul-line l line, e) refl

read_fields-others :
    (ls : List Bytes) (file : Bytes) (s r : Bytes × Bytes)
    → complete s ≡ false
    → AllOther ls
    → ((fuel : ℕ) → length file < fuel → read_fields fuel file s ≡ some r)
    → (fuel : ℕ) → length (unlines ls ++ file) < fuel
    → read_fields fuel (unlines ls ++ file) s ≡ some r
read_fields-others [] file s r c h next fuel enough = next fuel enough
read_fields-others (l ∷ ls) file s r c h next zero enough = absurd (omega arith)
read_fields-others (l ∷ ls) file s r c (other, others) next (suc fuel) enough =
    let tail = unlines ls ++ file in
    let split : unlines (l ∷ ls) ++ file ≡ l ++ newline ∷ tail =
      append_assoc l (newline ∷ unlines ls) file in
    let len : length (unlines (l ∷ ls) ++ file) ≡ length l + suc (length tail) =
      ap length split ∙ length-append l (newline ∷ tail) in
    ap (λ f. read_fields (suc fuel) f s) split
    ∙ read_fields-line fuel l tail s s other.0 other.1 (read_field-other l s other)
    ∙ rw c (read_fields-others ls file s r c others next fuel (omega (arith, len)))

IsLine-append : (a b : Bytes) → IsLine a → IsLine b → IsLine (a ++ b)
IsLine-append [] b h k = k
IsLine-append (x ∷ a) b (z, nl, h) k = (z, nl, IsLine-append a b h k)

IsValue-IsLine : (v : Bytes) → IsValue v → IsLine (9 ∷ v)
IsValue-IsLine [] h = absurd h
IsValue-IsLine (b ∷ v) (space, tab, line, short) = (omega arith, omega arith, line)

IsValue-short : (v : Bytes) → IsValue v → length v ≤ 31
IsValue-short [] h = absurd h
IsValue-short (b ∷ v) (space, tab, line, short) = short

not-empty : (v : Bytes) → IsValue v → is_empty v ≡ false
not-empty [] h = absurd h
not-empty (b ∷ v) h = refl

-- A status file with the lines of both fields.
abbrev pub status_text : List Bytes → Bytes → List Bytes → Bytes → Bytes → Bytes
status_text before pid between ppid rest =
    unlines before
    ++ (field_line pid_name pid
        ++ newline ∷ (unlines between ++ (field_line ppid_name ppid ++ newline ∷ rest)))

module _ (before : List Bytes) (pid : Bytes) (between : List Bytes) (ppid rest : Bytes)
    (others : AllOther before) (others' : AllOther between) (h : IsValue pid)
    (k : IsValue ppid) where
  read_ppid :
      (fuel : ℕ)
      → length (field_line ppid_name ppid ++ newline ∷ rest) < fuel
      → read_fields fuel (field_line ppid_name ppid ++ newline ∷ rest) (pid, []) ≡ some (pid, ppid)
  read_ppid zero enough = absurd (omega arith)
  read_ppid (suc fuel) enough =
      read_fields-line fuel (field_line ppid_name ppid) rest (pid, []) (pid, ppid)
        (IsLine-append ppid_name (9 ∷ ppid) (omega arith) (IsValue-IsLine ppid k))
        (let n = IsValue-short ppid k in omega arith) (read_field-ppid ppid (pid, []) k)
      ∙ rw (not-empty pid h, not-empty ppid k) refl

  read_pid :
      (fuel : ℕ) (file : Bytes)
      → ((n : ℕ) → length file < n → read_fields n file (pid, []) ≡ some (pid, ppid))
      → length (field_line pid_name pid ++ newline ∷ file) < fuel
      → read_fields fuel (field_line pid_name pid ++ newline ∷ file) ([], []) ≡ some (pid, ppid)
  read_pid zero file next enough = absurd (omega arith)
  read_pid (suc fuel) file next enough =
      let len = length-append (field_line pid_name pid) (newline ∷ file) in
      read_fields-line fuel (field_line pid_name pid) file ([], []) (pid, [])
        (IsLine-append pid_name (9 ∷ pid) (omega arith) (IsValue-IsLine pid h))
        (let n = IsValue-short pid h in omega arith) (read_field-pid pid ([], []) h)
      ∙ rw (not-empty pid h) (next fuel (omega (arith, len)))

  read_fields-both :
      (fuel : ℕ)
      → length (status_text before pid between ppid rest) < fuel
      → read_fields fuel (status_text before pid between ppid rest) ([], []) ≡ some (pid, ppid)
  read_fields-both =
      read_fields-others before _ ([], []) (pid, ppid) refl others
        (λ n. read_pid n _ (
          read_fields-others between _ (pid, []) (pid, ppid) (rw (not-empty pid h) refl) others'
            read_ppid))

  -- For a name of digits that is no longer than 240 bytes and whose status file has, among other
  -- lines that fit in the buffer, a line "Pid:" and later a line "PPid:", each with a tab and a
  -- value of at most 31 bytes that starts with no blank: GetProcessids reads the process with these
  -- two values, whatever follows.
  pub read_process-status_text :
      (files : Bytes → Option Bytes) (name : Bytes)
      → is_pid name ≡ true
      → length name ≤ 240
      → files (path_of name status_file) ≡ some (status_text before pid between ppid rest)
      → read_process files name ≡ some (record { pid = pid; ppid = ppid })
  unfolding read_process
  read_process-status_text files name digits short there =
      let fits : ltb 240 (length name) ≡ false = ground arith in
      rw
        (
          read_process,
          digits,
          fits,
          there,
          read_fields-both (length (status_text before pid between ppid rest) + 1) (omega arith),
          not-empty pid h,
          not-empty ppid k,
        )
        refl
