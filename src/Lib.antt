-- ===== src/Lib.antt =====
-- inet-lisp: an implementation of interaction nets in C, with a Lisp syntax.
--
-- A program defines nodes with ports and rules for pairs of nodes. Its functions, compiled to opcodes,
-- build a net of nodes joined by wires. Where two principal ports meet, an active pair becomes a task;
-- a worker takes tasks from its queue, takes the two nodes apart, and runs the rule's function on what
-- their other ports hold. Primitive nodes become tasks when all of their arguments have arrived.
--
-- The files, and the code that each models:
--
--   Base        shared names, results with the ways in which the process stops, lists, integers
--   Std         src/packages/std: Array (array/), Stack (stack/), Allocator (allocator/),
--               Queue (queue/), Hash (hash/), String (string/), Lexer (lexer/), Sexp (sexp/),
--               Path (path/)
--   Value       src/value: words with a tag in the low three bits (Tags), integers (Xint), booleans
--               (Xbool)
--   Net         src/net: constructors and ports (Ctor: node_ctor.c, port_info.c), memory (Heap: node.c,
--               wire.c, principal_wire.c), walks (Wire: wire.c), nodes (NodeAllocator)
--   Core        src/core: mods (Mod), connect.c (Connect), frame.c (Frame), workers (Worker); Worker has
--               Node (worker_reconnect_node.c, worker_disconnect_node.c), Apply (worker_apply*.c), Run
--               (worker_run_until.c) and Handle (worker_handle_task.c, worker_work_sequentially.c);
--               Scheduler (scheduler.c, worker_work_parallelly.c, and stats_counter.c of packages/std)
--   Lang        src/lang: expressions (Exp), statements (Stmt), parse_exp.c and parse_stmt.c (Parse),
--               compile.c (Compile), define.c and node_pattern.c (Define), execute.c, run_exp.c and the
--               loop of load.c (Execute)
--
-- State is passed explicitly. A C object is a record, an enum with a union a data type. The heap has a
-- list of cells for wires, one for principal wires and one for nodes; a pointer is an index, a freed
-- cell is empty, and a read through a freed or a null pointer is the error `dangling`. An `assert` is
-- `assertion_failed` and `exit (1)` is `exited`. A worker's operations are functions from its state to
-- a result with the next state, joined by do blocks. Constructors, functions and primitives are indexes
-- into the tables of the mod.
--
-- A text is read by the lexer into tokens, those by Sexp into s-expressions, these by Parse into
-- statements, which Execute runs on a mod and a worker. Lang/Execute/Tests runs the statements of a
-- program that adds one and zero.
--
-- The workers that run at the same time are a relation of steps on their threads: each has a queue, a
-- counter and a place in its loop, and a step is one operation on a queue or on a counter. What a
-- worker does with a task is there only by the tasks that it adds.
--
-- A loop or a recursion that may run on takes fuel. `connect` takes one more than the number of wires,
-- and no more than that are ever freed in one call; the allocation loop of nodes takes two rounds; a
-- `walk` takes as many rounds as the walk is long. `worker_apply` takes four, for a call through a
-- wire to an apply primitive. The loops of the interpreter take any fuel, since programs may run for
-- ever; statements on them hold for every fuel with which they return. `lexer_run` takes as many steps
-- as the text has bytes, which is enough, `parse_list` twice the tokens and one, and `path_join` one
-- more than the bytes of its string.
--
-- Not modelled: printing of values and nets, files, the cache of mods and the command line; locks,
-- which make each operation on a queue one step; the memory order of the counters. An import of another
-- file and `strtod` are parameters. The mod and the functions have association lists where the code has
-- the hash table of Std.Hash. The lists of packages/std are those of the language. Floating-point
-- arithmetic is not here, only the bit patterns. Counts of elements do not reach 2^64, and are plain
-- numbers; other words wrap.
pub mod Base
pub mod Std
pub mod Value
pub mod Net
pub mod Core
pub mod Lang
