-- ===== src/Demos/Tree.antt =====
-- course_code/lecture_5/pstree/create-tree.c: a tree of processes. The copy in lecture_8 is the
-- same file.
pub mod Layers
use jyyos.Prelude.{
  ℕ, zero, suc, ◌+◌, ◌%◌, ◌==◌, if◌then◌else◌, Bool, true, false, not, List, [], ◌∷◌, get_or,
}
use jyyos.Prelude.Int.{ℤ, pos, negsuc, is_neg, is_zero, to_ℕ}
use jyyos.Prelude.CText.{Bytes}
use jyyos.Prelude.Codes.{codes}
use jyyos.Demos.{
  Call, getpid, getppid, wait, sleep, open_file, read, close, Reply, Process, exit, print, fork,
  call, stuck, then_do,
}

-- "%d --> %d\n", "```mermaid\ngraph TD\n" and "```\n"
pub data Line : Type 0 where
  edge : ℤ → ℤ → Line
  begin_graph end_graph : Line

abbrev urandom : Bytes
urandom = codes "/dev/urandom"

-- x > 0
abbrev pub is_positive : ℤ → Bool
is_positive (pos n) = not (n == 0)
is_positive (negsuc n) = false

-- printf of getppid() and getpid().
abbrev print_edge : Process Line → Process Line
print_edge p = call getppid λ a. call getpid λ b. print (edge a.value b.value) p

-- The end of pstree_demo, behind the random choice.
abbrev stay : Process Line
stay = then_do (sleep 1) (print_edge (exit 0))

-- random_value % 2 == 0 tells the lowest byte of the four that fread stores.
unfoldable pub pstree_demo : Process Line
pstree_demo = print_edge (
    then_do (sleep 1) (
      call (open_file urandom 0) λ f.
        if is_neg f.value
        then stay
        else call (read (to_ℕ f.value) 4) λ r.
          then_do (close (to_ℕ f.value)) (if get_or r.bytes 0 0 % 2 == 0 then exit 0 else stay)))

-- create_process_tree(depth, max_depth) before the rest of its caller; `left` is max_depth - depth,
-- which is the number of calls that are left until depth >= max_depth.
unfoldable pub create_process_tree : ℕ → Process Line → Process Line
create_process_tree zero p = p
create_process_tree (suc left) p =
    let child = create_process_tree left pstree_demo in
    fork λ pid1.
      if is_neg pid1
      then exit 1
      else if is_zero pid1
      then child
      else fork λ pid2. if is_neg pid2 then exit 1 else if is_zero pid2 then child else p

-- `while (wait(NULL) > 0);`
unfoldable pub wait_all : ℕ → Process Line
wait_all zero = stuck
wait_all (suc fuel) = call wait λ r. if is_positive r.value then wait_all fuel else exit 0

-- main behind create_process_tree, with fuel for the loop.
unfoldable pub finish : ℕ → Process Line
finish fuel =
    then_do (sleep 1)
      (print end_graph (print begin_graph (then_do (sleep 2) (print end_graph (wait_all fuel)))))

unfoldable pub main : ℕ → Process Line
main fuel = print begin_graph (create_process_tree 4 (finish fuel))
