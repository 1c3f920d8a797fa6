-- ===== src/Lib.antt =====
-- Verification of aws-efa-examples: RDMA over AWS's Elastic Fabric Adapter with C++ coroutines. The
-- programs under src/ (paths from the repository's root) grow from one to the next, each with its
-- own copy of the shared headers; the development models the last, src/batch, in which one rank
-- writes pages of GPU memory to the other, and what differs from it in
-- src/affinity, src/efa, src/nvml, src/gpuloc and src/coro.
--
-- The parts, and how they work together:
--   Loop    the event loop. Loop.Defs has the objects of include/common/handle.h and event.h at
--           their addresses; Loop.Timers the queue of timers and Loop.Io the class IO of io.h, with
--           Handle::schedule and cancel of handle.cc; Loop.Selector the class Selector of selector.h,
--           which turns completions of libfabric into events.
--   Buffer  buffer.h: HostBuffer and, in Buffer.Cuda, CUDABuffer, the memory that is registered with
--           libfabric.
--   Conn    conn.h: the awaiters and the coroutines Recv, Send, Write and Read. An awaiter posts an
--           operation with its context and suspends its coroutine; the selector finds the context in
--           the completion, and the event loop resumes the coroutine.
--   Net     net.cc and net.h: the objects of libfabric, opened and closed; the connections by
--           address; the text of an address.
--   Writer  main.cc: WriteOne, which sends all pages with up to eight writes in flight, and its form
--           in src/affinity/main.cc, without the window.
--   Sender  main.cc: the same WriteOne with the coroutines of Conn::Write in its futures, as handles of the
--           event loop: its start, its suspensions and its return, and the rounds between them.
--   Reader  main.cc: Reader::Read over its repeats, with the coroutines of Conn::Read that it awaits, as
--           handles of the event loop.
--   Transfer  the Writer and the Reader together.
--   Peer    main.cc: the constructor of Peer, its random data and the comparison of Verify.
--   Coro    coro.h, future.h and timer.h: promises, awaiters and the sleep; Coro.Values is result.h.
--   Topology  gpuloc.h: the walk over hwloc's tree, and in Topology.Affinity the pairing of each GPU
--           with the cores and EFA devices near it, which main.cc takes its device from; Topology.Stages is GPUloc of src/nvml and
--           src/gpuloc, without the EFA devices' fi_info.
--   Session main.cc: how the ranks gather their addresses, the handshake, and the passes of Write.
--   Sleeper the program of src/coro, on its event loop without a selector.
--   Efa     efa.h, and the same functions in src/info/main.cc: the list of EFA devices.
--   Pingpong  src/efa, an earlier stage: its Buffer with a region for each domain, its Conn, and its
--           Selector without remote writes.
--   Common  numbers, lists, maps, bit masks and outcomes that the parts share.
--   Examples  tests of the models on concrete data.
--
-- How the code is read. An object is a record and its address a number, 0 for the null pointer. An
-- operation takes the state and returns it; one that can throw returns an Outcome, whose `undefined`
-- stands for undefined behaviour; where variables outlive an exception it returns their values with it, a Run. What libfabric, CUDA, hwloc, MPI, malloc, fmt and the clock answer
-- is an argument. Pointers, sizes and immediate data keep their 64 and 32 bits where the code computes
-- with them. A coroutine is its part up to a suspension and its part from the resumption on. All
-- loops are structural, over a list or over a count that the code fixes before it starts; the one
-- exception is IO::Run, which goes on as long as a list of rounds has it. A theorem that a coroutine
-- returns says for which rounds it does, and holds for any that follow.
--
-- Not modelled: the progress display (floating point), the printing operators, the attributes that
-- are passed to fi_mr_regattr, the wrapper of MPI, the CPU mask of Taskset, and the scripts that build and run the programs.
pub mod Buffer
pub mod Common
pub mod Conn
pub mod Coro
pub mod Efa
pub mod Examples
pub mod Loop
pub mod Net
pub mod Peer
pub mod Pingpong
pub mod Reader
pub mod Sender
pub mod Session
pub mod Sleeper
pub mod Topology
pub mod Transfer
pub mod Writer
