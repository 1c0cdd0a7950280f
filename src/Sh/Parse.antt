-- ===== src/Sh/Parse.antt =====
-- sh.c, parsecmd and what it calls; lib.h, zalloc and assert. A failed assert ends the process.
use jyyos.Prelude.{ℕ, zero, suc, ◌+◌, ◌*◌, Bool, true, false, not, ltb, leb, ◌==◌, if◌then◌else◌}
use jyyos.Prelude.{Option, none, some, List, [], ◌∷◌, ◌++◌, length}
pub mod Ensures
pub mod Phrase
pub mod Sound
use jyyos.Prelude.CText.{Bytes}
use jyyos.Sh.{Word, Cmd, Token, exec, redir, pipe, list, back, max_args, mem_size, gettoken, peek}

-- `panicked` is a failed assert; `stuck` is a call of the model that ran out of fuel.
pub data Outcome {ℓ} (A : Type ℓ) : Type ℓ where
  ok : A → Outcome A
  panicked stuck : Outcome A

infixl 5 ◌>>=◌ ◌>>◌
abbrev pub ◌>>=◌ {ℓ κ} : {A : Type ℓ} {B : Type κ} → Outcome A → (A → Outcome B) → Outcome B
ok a >>= f = f a
panicked >>= f = panicked
stuck >>= f = stuck

abbrev pub ◌>>◌ {ℓ} : {B : Type ℓ} → Outcome (Unit {0}) → Outcome B → Outcome B
m >> k = m >>= λ _. k

abbrev pub assert : Bool → Outcome (Unit {0})
assert true = ok tt
assert false = panicked

-- The pointer *ps, and the bytes of `mem` that are taken.
pub record State : Type 0 where
  pub pos : ℕ
  pub used : ℕ

-- The sizes of the structures, on a machine with pointers of 8 bytes.
abbrev pub size_exec : ℕ
size_exec = 168

abbrev pub size_redir : ℕ
size_redir = 40

abbrev pub size_pair : ℕ
size_pair = 24

abbrev pub size_back : ℕ
size_back = 16

unfoldable pub zalloc : ℕ → State → Outcome State
zalloc size s =
    if ltb (s.used + size) mem_size then ok (record s { used = s.used + size }) else panicked

-- execcmd, redircmd and backcmd: room for the node, whose fields the caller puts into the tree.
abbrev pub exec_cmd : State → Outcome State
exec_cmd = zalloc size_exec

abbrev pub redir_cmd : State → Outcome State
redir_cmd = zalloc size_redir

abbrev pub back_cmd : State → Outcome State
back_cmd = zalloc size_back

-- pipecmd and listcmd.
abbrev pub pipe_cmd : Cmd → Cmd → State → Outcome (Cmd × State)
pipe_cmd left right s = zalloc size_pair s >>= λ s'. ok (pipe left right, s')

abbrev pub list_cmd : Cmd → Cmd → State → Outcome (Cmd × State)
list_cmd left right s = zalloc size_pair s >>= λ s'. ok (list left right, s')

-- O_RDONLY, O_WRONLY | O_CREAT | O_TRUNC and O_WRONLY | O_CREAT.
abbrev pub read_only : ℕ
read_only = 0

abbrev pub create_truncate : ℕ
create_truncate = 577

abbrev pub create : ℕ
create = 65

-- The redirections that parseredirs wraps round a command, in the order in which it reads them.
pub record Redir : Type 0 where
  pub file : Word
  pub mode : ℕ
  pub fd : ℕ

abbrev pub wrap : Cmd → List Redir → Cmd
wrap cmd [] = cmd
wrap cmd (r ∷ rs) = wrap (redir cmd r.file r.mode r.fd) rs

module _ (text : Bytes) where
  abbrev move_to : State → ℕ → State
  move_to s p = record s { pos = p }

  -- The switch on the kind of the token.
  unfoldable pub redir_of : ℕ → Word → State → Outcome (Option Redir × State)
  redir_of kind file s =
      if kind == b'<'
      then (redir_cmd s >>= λ s'. ok (some (record { file = file; mode = read_only; fd = 0 }), s'))
      else if kind == b'>'
      then (redir_cmd s >>= λ s'.
          ok (some (record { file = file; mode = create_truncate; fd = 1 }), s'))
      else if kind == b'+'
      then (redir_cmd s >>= λ s'. ok (some (record { file = file; mode = create; fd = 1 }), s'))
      else ok (none, s)

  abbrev cons_some : Option Redir → List Redir → List Redir
  cons_some none rs = rs
  cons_some (some r) rs = r ∷ rs

  unfoldable pub parse_redirs : ℕ → State → Outcome (List Redir × State)
  parse_redirs zero s = stuck
  parse_redirs (suc fuel) s =
      let (p, seen) = peek text s.pos (b'<' ∷ b'>' ∷ []) in
      let read = do
        let op = gettoken text p
        let file = gettoken text op.next
        assert (file.kind == b'a')
        (r, s') ← redir_of op.kind file.word (move_to s file.next)
        (rs, s'') ← parse_redirs fuel s'
        ok (cons_some r rs, s'')
      in if seen then read else ok ([], move_to s p)

  -- The loop of parseexec that collects the arguments, with those so far.
  unfoldable pub parse_args :
      ℕ → List Word → List Redir → State → Outcome (List Word × List Redir × State)
  parse_args zero args rs s = stuck
  parse_args (suc fuel) args rs s =
      let (p, seen) = peek text s.pos (b'|' ∷ b')' ∷ b'&' ∷ b';' ∷ []) in
      let t = gettoken text p in
      let read = do
        assert (t.kind == b'a')
        assert (ltb (length args + 1) max_args)
        (more, s') ← parse_redirs (length text + 1) (move_to s t.next)
        parse_args fuel (args ++ t.word ∷ []) (rs ++ more) s'
      in if seen
        then ok (args, rs, move_to s p)
        else if t.kind == 0
        then ok (args, rs, move_to s t.next)
        else read

  -- The loop of parseline over '&'.
  unfoldable pub parse_backs : ℕ → Cmd → State → Outcome (Cmd × State)
  parse_backs zero cmd s = stuck
  parse_backs (suc fuel) cmd s =
      let (p, seen) = peek text s.pos (b'&' ∷ []) in
      let read = do s' ← back_cmd (move_to s (gettoken text p).next); parse_backs fuel (back cmd) s'
      in if seen then read else ok (cmd, move_to s p)

  -- parseexec from its execcmd() on.
  unfoldable pub parse_simple : State → Outcome (Cmd × State)
  parse_simple s = do
    s₁ ← exec_cmd s
    (rs, s₂) ← parse_redirs (length text + 1) s₁
    (args, rs', s₃) ← parse_args (length text + 1) [] rs s₂
    ok (wrap (exec args) rs', s₃)

  unfoldable mutual
    pub parse_line : ℕ → State → Outcome (Cmd × State)
    parse_line zero s = stuck
    parse_line (suc fuel) s = do
      (left, s₁) ← parse_pipe fuel s
      (cmd, s₂) ← parse_backs (length text + 1) left s₁
      let (p, seen) = peek text s₂.pos (b';' ∷ [])
      let more = do
        (right, s₃) ← parse_line fuel (move_to s₂ (gettoken text p).next)
        list_cmd cmd right s₃
      if seen then more else ok (cmd, move_to s₂ p)

    pub parse_pipe : ℕ → State → Outcome (Cmd × State)
    parse_pipe zero s = stuck
    parse_pipe (suc fuel) s = do
      (left, s₁) ← parse_exec fuel s
      let (p, seen) = peek text s₁.pos (b'|' ∷ [])
      let more = do
        (right, s₂) ← parse_pipe fuel (move_to s₁ (gettoken text p).next)
        pipe_cmd left right s₂
      if seen then more else ok (left, move_to s₁ p)

    pub parse_exec : ℕ → State → Outcome (Cmd × State)
    parse_exec zero s = stuck
    parse_exec (suc fuel) s =
        let (p, seen) = peek text s.pos (b'(' ∷ []) in
        let block = parse_block fuel (move_to s p) in
        if seen then block else parse_simple (move_to s p)

    pub parse_block : ℕ → State → Outcome (Cmd × State)
    parse_block zero s = stuck
    parse_block (suc fuel) s = do
      let (p, opened) = peek text s.pos (b'(' ∷ [])
      assert opened
      (cmd, s₁) ← parse_line fuel (move_to s (gettoken text p).next)
      let (p₁, closed) = peek text s₁.pos (b')' ∷ [])
      assert closed
      (rs, s₂) ← parse_redirs (length text + 1) (move_to s₁ (gettoken text p₁).next)
      ok (wrap cmd rs, s₂)

-- parsecmd without its call of nulterminate: the tree, and the bytes of `mem` that are taken.
unfoldable pub parsecmd : Bytes → Outcome (Cmd × ℕ)
parsecmd text = do
  (cmd, s) ← parse_line text (4 * length text + 4) (record { pos = 0; used = 0 })
  let (p, seen) = peek text s.pos []
  assert (p == length text)
  ok (cmd, s.used)
