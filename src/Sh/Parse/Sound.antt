-- ===== src/Sh/Parse/Sound.antt =====
-- sh.c, parsecmd: it ends on every line, and what it builds.
pub mod Loops
pub mod Grammar
use jyyos.Prelude.{ℕ, ◌+◌, ◌*◌, ◌<◌, ◌≤◌, ◌≡◌, ◌⊎◌, List, [], ◌∷◌, ◌++◌, length, arith}
use jyyos.Prelude.CText.{Bytes}
use jyyos.Sh.{Word, Cmd, exec, redir, pipe, list, back, max_args, mem_size}
use jyyos.Sh.Lex.{IsWord}
use jyyos.Sh.Parse.{State, Redir, wrap, size_exec, size_redir, size_pair, size_back}

abbrev pub All {ℓ} : {A : Type ℓ} → (A → Type 0) → List A → Type 0
All P [] = Unit {0}
All P (x ∷ xs) = P x × All P xs

-- A redirection is of descriptor 0 or 1.
abbrev pub IsStandard : ℕ → Type 0
IsStandard fd = (fd ≡ 0) ⊎ (fd ≡ 1)

-- Every command has fewer than MAXARGS words, every redirection is of descriptor 0 or 1, and P
-- holds of all words.
abbrev pub Holds : (Word → Type 0) → Cmd → Type 0
Holds P (exec args) = All P args × (length args < max_args)
Holds P (redir cmd file mode fd) = Holds P cmd × P file × IsStandard fd
Holds P (pipe left right) = Holds P left × Holds P right
Holds P (list left right) = Holds P left × Holds P right
Holds P (back cmd) = Holds P cmd

abbrev pub IsRedir : (Word → Type 0) → Redir → Type 0
IsRedir P d = P d.file × IsStandard d.fd

-- The bytes of `mem` that a tree takes.
abbrev pub size_of : Cmd → ℕ
size_of (exec args) = size_exec
size_of (redir cmd file mode fd) = size_of cmd + size_redir
size_of (pipe left right) = size_of left + size_of right + size_pair
size_of (list left right) = size_of left + size_of right + size_pair
size_of (back cmd) = size_of cmd + size_back

-- The state moved forward in the line and took `size` bytes.
pub record Moves (text : Bytes) (s s' : State) (size : ℕ) : Type 0 where
  pub forward : s.pos ≤ s'.pos
  pub within : s'.pos ≤ length text
  pub taken : s'.used ≡ s.used + size

-- A parser built a tree from the state s on.
pub record Builds (text : Bytes) (s : State) (r : Cmd × State) : Type 0 where
  pub moves : Moves text s r.1 (size_of r.0)
  pub words : Holds (IsWord text) r.0

pub All-append {ℓ} :
    {A : Type ℓ} (P : A → Type 0) (xs ys : List A) → All P xs → All P ys → All P (xs ++ ys)
All-append P [] ys h k = k
All-append P (x ∷ xs) ys (h, hs) k = (h, All-append P xs ys hs k)

abbrev pub redirs_size : List Redir → ℕ
redirs_size rs = size_redir * length rs

pub size_of-wrap :
    (cmd : Cmd) (rs : List Redir) → size_of (wrap cmd rs) ≡ size_of cmd + redirs_size rs
size_of-wrap cmd [] = omega arith
size_of-wrap cmd (r ∷ rs) = omega (arith, size_of-wrap (redir cmd r.file r.mode r.fd) rs)

pub wrap-Holds :
    (P : Word → Type 0) (cmd : Cmd) (rs : List Redir)
    → Holds P cmd
    → All (IsRedir P) rs
    → Holds P (wrap cmd rs)
wrap-Holds P cmd [] h k = h
wrap-Holds P cmd (r ∷ rs) h ((k, std), ks) =
    wrap-Holds P (redir cmd r.file r.mode r.fd) rs (h, k, std) ks
