-- ===== src/Demos/Offset.antt =====
-- course_code/lecture_7/fd/fd-offset.c: the offset of an open file, which dup and fork share.
pub mod Content
use jyyos.Prelude.{ℕ, ◌+◌, ◌==◌, if◌then◌else◌, Bool, true, false, List, [], ◌∷◌, length}
use jyyos.Prelude.Int.{ℤ, pos, negsuc, is_neg, to_ℕ}
use jyyos.Prelude.CText.{Bytes, until_nul}
use jyyos.Prelude.Codes.{codes}
use jyyos.Demos.{
  create_empty, read_only, Call, open_file, dup, write, read, close, wait, Reply, Process, exit,
  print, fork, call, then_do,
}
use jyyos.Prelude.Int.{is_zero}

-- "Content of sample.txt: %s\n" and "Content of sample.txt after fork: %s\n"
pub data Line : Type 0 where
  content content_after_fork : Bytes → Line

abbrev pub sample : Bytes
sample = codes "sample.txt"

-- perror and exit(EXIT_FAILURE), behind the closes of the descriptors.
abbrev fail : Process Line
fail = exit 1

-- demo_dup_offset, before the rest of main.
unfoldable pub demo_dup_offset : Process Line → Process Line
demo_dup_offset rest = call (open_file sample create_empty) λ r1.
    if is_neg r1.value
    then fail
    else call (dup (to_ℕ r1.value)) λ r2.
      if is_neg r2.value
      then then_do (close (to_ℕ r1.value)) fail
      else then_do (write (to_ℕ r1.value) (b'A' ∷ [])) (
          then_do (write (to_ℕ r2.value) (b'B' ∷ [])) (
            then_do (close (to_ℕ r1.value)) (
              then_do (close (to_ℕ r2.value)) (
                call (open_file sample read_only) λ r3.
                  if is_neg r3.value
                  then fail
                  else call (read (to_ℕ r3.value) 2) λ got.
                    print (content (until_nul got.bytes)) (then_do (close (to_ℕ r3.value)) rest)))))

unfoldable pub demo_fork_offset : Process Line → Process Line
demo_fork_offset rest = call (open_file sample create_empty) λ r1.
    if is_neg r1.value
    then fail
    else fork λ pid.
      if is_neg pid
      then then_do (close (to_ℕ r1.value)) fail
      else if is_zero pid
      then then_do (write (to_ℕ r1.value) (b'D' ∷ [])) (then_do (close (to_ℕ r1.value)) (exit 0))
      else then_do wait (
          then_do (write (to_ℕ r1.value) (b'C' ∷ [])) (
            then_do (close (to_ℕ r1.value)) (
              call (open_file sample read_only) λ r2.
                if is_neg r2.value
                then fail
                else call (read (to_ℕ r2.value) 2) λ got.
                  print (content_after_fork (until_nul got.bytes))
                    (then_do (close (to_ℕ r2.value)) rest))))

unfoldable pub main : Process Line
unfolding demo_dup_offset demo_fork_offset
main = demo_dup_offset (demo_fork_offset (exit 0))
