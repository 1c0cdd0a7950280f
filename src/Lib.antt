-- ===== src/Lib.antt =====
-- The course programs of jyyos2025, as definitions that follow their C text, and what is proved
-- of them.
--
-- Labyrinth: minilab/labyrinth/labyrinth.c and labyrinth.h, the labyrinth game. Labyrinth has the
-- map and the tests of one cell; Find the row-major searches findPlayer and findFirstEmptySpace;
-- Connected the flood dfs and isConnected; Move movePlayer; Storage loadMap and saveMap; Main the
-- options and main. The array of the map is a function of row and column, and a write past the end
-- of a row is an outcome of its own.
--
-- Sh: course_code/lecture_8/sh/sh.c and lib.h, the shell. Sh has gettoken and peek; Sh/Parse the
-- recursive descent from parsecmd down, with zalloc's arena of 4096 bytes; Sh/Parse/Phrase a
-- specification, the grammar of a line without the parser, with the bytes that spell a phrase and
-- the tree of each phrase;
-- Sh/Terminate nulterminate; Sh/Run runcmd, a tree of system calls that branches on the kernel's
-- replies; and Sh/Loop getcmd and main. Sh/Run/Wiring is a specification: which programs a process
-- can execute with which descriptors, under a kernel that gives out the lowest free descriptor, and
-- what a tree asks for.
--
-- Hanoi: course_code/lecture_2/hanoi(not_understand)/hanoi-r.c (Hanoi), hanoi-nr.c (Hanoi/Frames)
-- and hanoi-o3mini.c (Hanoi/Staged): one recursion and two machines with a stack for it. What is
-- printed is a list of moves.
--
-- Pstree: minilab/pstree/pstree.c and pstree.h. Pstree has GetProcessids, and Pstree/Print the
-- searches, PrintProcessTree and main; Pstree/Status is about the status files, Pstree/Read about
-- the loop over /proc, Pstree/Print/Shows about the printed tree, whose specification is
-- Pstree/Print/Outline, and Pstree/Main about main.
-- Pstree/Heap has the blocks that GetProcessids and main allocate and FreeProcessTree frees, for
-- any malloc, by their pointers and sizes.
--
-- Minilibc: course_code/lecture_9/minilibc/src/string.c, stdio.c and malloc.c. Minilibc has strcmp,
-- print_int, puts and printf on texts; Minilibc/Memory strlen and strcpy on a memory where an
-- access to an address that is not mapped is a fault; Minilibc/Malloc malloc and free over mmap and
-- munmap.
--
-- Logisim: course_code/lecture_1/logisim/logisim.c and logisim.h, a circuit of two registers; a run
-- is the list of what its cycles print.
--
-- Testkit: testkit/testkit.c and testkit.h, the test runner. Testkit has the test cases;
-- Testkit/Add tk_add_test; Testkit/Run run_testcase to run_all_testcases, with what the tests do as
-- a parameter; Testkit/Worker the pipe to the worker process, and a session from the constructors
-- to the report. course_code/lecture_5/testkit is a copy of the same files.
--
-- Demos: demonstrations of course_code. Demos has processes as trees of prints, forks and calls;
-- Demos/Fork is lecture_5/fork-demo/demo-1.c and demo-2.c, with the buffer of stdout; Demos/Tree is
-- lecture_5/pstree/create-tree.c, of which lecture_8 has a copy; Demos/Offset is
-- lecture_7/fd/fd-offset.c and Demos/Alloc is fd-alloc.c; Demos/Runs has the runs of a process and
-- its child step by step.
--
-- Prelude: numbers, lists, C strings as lists of bytes, fgets, and lemmas on them.
--
-- The programs do not share state. What they share is C: a string is the list of its bytes before
-- the NUL, an int that is a count is a natural number, and an int that can be negative is a ℤ. An
-- overflow of the count of hanoi is an outcome, and -number in print_int wraps round.
--
-- Fuel. dfs has a round for each cell of the map, rows * cols. The loop of loadMap has MAX_ROWS + 1
-- rounds. The descent of the parser has 4 * len + 4 for a line of len bytes, since four calls at
-- most pass before a byte is read, and its loops len + 1, since each round reads a byte. The
-- command loop needs a round for each byte of the input and one more. The recursive hanoi needs as
-- many calls as there are discs, and its machines the rounds that their theorems name. The loop
-- over a status file has a round for each byte and one more, and print_int one for each unit of its
-- number and one more; strlen and strcpy have one for each byte and one for the NUL.
-- PrintProcessTree recurses for ever on processes that are their own ancestors; its fuel is the
-- depth of its calls.
--
-- Not modelled: what printf shows except where it is the result (Hanoi, pstree); the C library and
-- the kernel, whose results are parameters or any value (getopt_long, fopen, readdir, atoi, qsort,
-- mmap, the replies to system calls), except the documented fgets; failures of the allocations that
-- the programs make, except those of pstree; start.c of the small C library, assembly that reads
-- the stack frame of its own function; the demonstrations of single system calls; the vendored
-- opensbi, toybox and mini-rv32ima; and the scripts in Python.
pub mod Prelude
pub mod Labyrinth
pub mod Sh
pub mod Hanoi
pub mod Pstree
pub mod Minilibc
pub mod Logisim
pub mod Testkit
pub mod Demos
