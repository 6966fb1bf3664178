-- ===== src/Lib.antt =====
-- The homework programs of CSE 344 (system programming): models of the C programs of this
-- repository and proofs about them. The programs are independent of each other; each has a tree of
-- modules of its own over the shared helpers of Prelude.
--
-- hw5/src (Mvcp): a manager walks a source tree and queues pairs of open descriptors in a bounded
-- buffer, workers take them out and copy, a SIGINT handler stops all, and a barrier ends the run.
--   Mvcp/Buffer.antt    200104004085_buffer.{c,h}: `Buffer` is `buffer_str`; `buffer_init`,
--                       `buffer_add`, `buffer_remove`, `buffer_set_done`. Below it: Inv (well-formed
--                       buffers), Fifo and Refine (the queue that a buffer stands for), Calls
--                       (sequences of calls), Holds (what is in a buffer), Destroy
--                       (`buffer_destroy`), Contract (all operations against the queue).
--   Mvcp/Worker.antt    200104004085_worker.c, the loops over `read` and `write`; Copy is about them.
--   Mvcp/Manager.antt   200104004085_manager.c: `process_directory`, `copy_file` and the functions
--                       they call, on a tree of what `readdir`, `lstat` and `open` tell; Tree is
--                       about the walk.
--   Mvcp/Threads.antt   the threads with their waits, signals, broadcasts and the barrier, as a step
--                       relation; Inv, Progress and Stuck are about it.
--   Mvcp/Main.antt      `worker` as a whole, and the arguments, joins and statistics of `main`; Clock
--                       is about the time printed, Report about all of it.
-- hw4/src (Copier): the same program before it had a barrier. Copier.antt is the step relation of its
--   threads over the buffer of hw5; Copier/Walk.antt the walk of its manager, which has the text of
--   hw5; Copier/Main.antt its `main`; Inv, Progress and Ends are about the threads.
-- hw3 (Parking): main.c, a parking lot with owners, attendants and exits as a step relation in
--   Parking.antt; Inv is about it.
-- hw2 (Fifos): main.c, a parent and two children. Fifos.antt is what they write to two FIFOs and make
--   of what they read there, byte by byte, and the SIGCHLD handler; Order and Children are about it.
-- hw1 (Students): gtuStudentManagemetSystem.c.
--   Students/Lines.antt   lines of a file; World.antt: files, terminal and log file.
--   Students/Add.antt     `gtu_student_grades` and `add_student_grade`; Search.antt:
--                         `search_student`; Show.antt: `show_all`, `list_grades`, `list_some`.
--   Students/Bubble.antt  the bubble sorts; Names.antt: the sorts by name; Grades.antt: grades and
--                         the sorts by grade, with `qsort` as a parameter.
--   Students/Scan.antt    the formats of `scanf`; Menu.antt: `menu`, `sort_all`, `commands`,
--                         `remove_quotes`.
-- final (Pide): server.c, a pide shop, and client.c.
--   Pide/Queue.antt       the linked list `Queue` with its nodes at addresses of a heap;
--                         Queue/Calls.antt is about runs of its operations.
--   Pide/Clients.antt     the queues of the clients with the threads of `handle_client_queue`,
--                         `check_and_expand_order_array` and `cleanup`; Clients/Idle.antt is about them.
--   Pide/Shop.antt        orders, cooks, couriers and `main`; Shop/Runs.antt: their steps. Oven,
--                         Crew, Batch and Tally are about runs, Orders and Counts about the array.
--   Pide/Signals.antt     who sleeps at the three condition variables, and what a signal does.
--   Pide/Waits.antt       the same threads with their waits and signals, and
--                         `handle_completion_updates`. Refine takes its steps to those of Shop/Runs;
--                         Quiet and Sleep are about threads that sleep for ever, Naps, Calm, CalmSteps,
--                         CalmRuns, Work and Progress about a batch with one courier.
--   Pide/Statistics.antt  the loops of `main` that look for the busiest cook and courier.
--   Pide/Matrix.antt      `matrix_multiply` to `calculate_pseudo_inverse` over any type of numbers
--                         with the operations of `complex double`. Matrix/Cells.antt and Rows.antt are
--                         about the loops and ask no law of arithmetic; Exact.antt states the laws of a
--                         field, which floating point numbers meet up to rounding; Inverse rests on
--                         them. Pseudo is about `calculate_pseudo_inverse`, for any arithmetic.
--   Pide/Message.antt     the message with an order, from client.c to `handle_client` of server.c.
--   Pide/Session.antt     the connections of a batch, from `main` of client.c to `main` and
--                         `handle_client` of server.c, and `receive_completion_status`.
-- midterm (Midterm): server/server.c and client/client.c.
--   Midterm/Slots.antt    the assignment of a slot to a client in `main` of the server.
--   Midterm/Client.antt   `handle_client` and `is_valid_command` of the client.
--   Midterm/Commands.antt what the server's child of a command runs; Answers.antt: `help`,
--                         `arch_server` and the response; Requests.antt follows a request through both.
--   Midterm/Exchange.antt how a client and its process of the server take turns over one FIFO and the
--                         semaphore `semid2`; Outcomes, Phases and Runs are about it.
--
-- Conventions. Bytes and counters are native numbers, `int` values that can be negative are ℤ of
-- Prelude.Int; none of them comes near the bounds of its machine type in these programs, apart
-- from sizes of buffers, which are written out, the lines of a page in hw1, the sums and products of
-- hw2, and the bytes copied in hw4 and hw5. Buffer sizes of the source (MAX_SIZE, MAX_STUDENTS,
-- PATH_MAX) are parameters or literals. Threads of one function are counted by the place where they
-- stand, or listed; a section under a mutex is one step. In final the sections of couriers hold
-- another mutex than those of the other threads with whom they share orders and `active_orders`; they
-- are steps too, and the loss of an update is a step of its own in Pide/Waits.antt. A wait on a condition
-- variable may end at any time in Mvcp/Threads.antt and Pide/Waits.antt, and is the condition of a
-- step in Pide/Shop/Runs.antt. Results of system calls are arguments: lists of what `read` and `write`
-- return, a tree of what the file system holds, the address that `malloc` returns. Undefined
-- behaviour is an outcome of its own where the code can reach it. Loops are structural recursion
-- on the data that they go through; the loop of `free_queue` takes a bound, for which the length
-- of the queue is shown to be enough.
--
-- An `int` of hw2 is its bit pattern, and its sums and products wrap at 2 ^ 32; that of child 1 has as
-- much fuel as there are bytes, and each read takes one at least.
--
-- Not modelled: the set-up of sockets, of semaphores and of FIFOs; the status messages and the log
-- lines of final; the random numbers and the clock; the arguments of the command lines but for hw4 and
-- hw5; the unlinking and killing at the end of the midterm's server; failures of `fork`, and of reads
-- and writes of the grade files.
pub mod Prelude
pub mod Mvcp
pub mod Parking
pub mod Students
pub mod Pide
pub mod Fifos
pub mod Copier
pub mod Midterm
