-- ===== src/Demos.antt =====
-- The demonstrations of course_code, as processes: trees of prints, forks and system calls. What a
-- process does next depends on the kernel's reply, which for fork is 0 in the child.
pub mod Fork
pub mod Tree
pub mod Runs
pub mod Offset
pub mod Alloc
mod Tests
use jyyos.Prelude.{ℕ}
use jyyos.Prelude.Int.{ℤ}
use jyyos.Prelude.CText.{Bytes}

pub data Call : Type 0 where
  getpid getppid wait : Call
  sleep : ℕ → Call
  open_file : Bytes → ℕ → Call
  dup : ℕ → Call
  write : ℕ → Bytes → Call
  read : ℕ → ℕ → Call
  close : ℕ → Call

-- O_RDWR | O_CREAT | O_TRUNC, and O_RDONLY.
abbrev pub create_empty : ℕ
create_empty = 578

abbrev pub read_only : ℕ
read_only = 0

-- The value that a call returns, and the bytes that read stores.
pub record Reply : Type 0 where
  pub value : ℤ
  pub bytes : Bytes

-- What a process prints is one of Out. It is stuck where the fuel of a loop has run out.
pub data Process (Out : Type 0) : Type 0 where
  exit : ℕ → Process Out
  print : Out → Process Out → Process Out
  fork : (ℤ → Process Out) → Process Out
  call : Call → (Reply → Process Out) → Process Out
  stuck : Process Out

-- A call whose reply is not looked at.
abbrev pub then_do : {Out : Type 0} → Call → Process Out → Process Out
then_do c p = call c (λ r. p)
