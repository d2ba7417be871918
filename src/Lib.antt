-- ===== src/Lib.antt =====
-- A verification library for a user-level virtual machine: preemptive threads, mutexes and file access
-- for a module that is loaded at run time.
--
-- The program. VirtualMachine.cpp holds the calls that a module makes (VMThread*, VMMutex*, VMFile*)
-- and VMStart. Each call suspends the signals, works on the one ThreadStore and resumes the signals.
-- UtilityFunctions.cpp holds the classes: TCB, a thread; Mutex, with an owner and three lists of
-- waiting threads; and ThreadStore, with the ready lists, the wait list, the dead list, the scheduler
-- and the timer. Machine.cpp is the machine below: contexts, signals, the alarm, and a helper process
-- that performs file requests, which it gets and answers as messages. main.c reads the command line and
-- calls VMStart; VirtualMachineUtils.c loads the module and holds VMFilePrint.
--
-- The files.
--   Machine/Data, Machine/Codec, Machine/Signals: the messages and static variables of Machine.cpp,
--     MachineGetInt and MachineSetInt, and the functions on signals.
--   Machine/Requests: MachineAddRequest, the MachineFile functions and MachineTerminate.
--   Machine/Server, Machine/Poll: the helper process, from the child's branch of MachineInitialize.
--   Machine/Contexts: MachineContextCreate with its trampoline and boot function, on a process of its own:
--     its signals, its alternate stack and its jump buffers.
--   Link: both processes as one step relation (Link/Defs): a request, the signal behind it, the loop of
--     the helper process by messages and by descriptors, and the replies. Link/Inv is the invariant of
--     the traffic; Link/Count counts requests, reads and replies by identifier. Link/Work, Link/Finish, Link/Rounds and
--     Link/Idle are the helper process at work while the virtual machine stands.
--   Machine/RoundTrip: the requests of the one process against what the other performs.
--   Vm/Data: the fields of the classes of UtilityFunctions.h. A pointer to an object is its number in
--     the order of allocation, and the two heaps of objects are functions on numbers.
--   Vm/Run: a computation over the store that may hand the processor to another thread. What is left
--     to do then is kept, as MachineContextSwitch keeps it; the other constructors are the result,
--     undefined behaviour, a loop that runs out of fuel, and the end of the process.
--   Vm/Tcb, Vm/Locks, Vm/Schedule, Vm/Wait, Vm/Threads, Vm/Create, Vm/Timer, Vm/Entry: the functions of
--     UtilityFunctions.cpp, one for one (sleepCurrentThread is sleep_current_thread).
--   Vm/Reply: MachineReplySignalHandler of Machine.cpp, which calls back into the store.
--   Api: the calls of VirtualMachine.cpp, under their names (VMMutexAcquire is vm_mutex_acquire), and
--     VMStart with VMLoadModule and VMUnloadModule (Api/Start), main (Api/Main), VMFilePrint (Api/Print).
--   System: a module's threads, the timer, the replies and the context switches as a step relation.
--   Safety: the invariant of the store, and for each function what it guarantees at a switch and at
--     the end, and what it relies on while other threads run.
--   Spec: the order in which mutexes and the processor are handed on, switches, sleep, search, the answers
--     of calls, the way of a read from call to result, contexts, options, printed text, and the end of
--     the loop of releaseMutexes.
--   Quiet: what each function does to the traffic of requests and to the threads that wait for a reply,
--     and how the calls of System are steps of Link.
--   Program: the threads of System beside the helper process of Link, with both channels and both signals,
--     as one step relation (Program/Defs). While the threads stand, a state of it is a state of Link;
--     from the start of a call to its end or to a switch the helper process makes no step. The threads
--     make one request at most on the way.
--   Prelude: the shared names, lists and tests.
--   Tests: a concrete store and runs on it.
--
-- Choices. An unsigned int is a natural number below 2^32 with its wrap-around written out, and an int
-- is its 32-bit pattern. Undefined behaviour is a value: an index of a ready list or a priority list
-- out of range, a null pointer, a buffer that is overrun by an open, a write or a read, a read past the
-- end of a message. The layout of a message is that of a 64-bit system: a `long` of 8 bytes, and the
-- payload behind 12. What an uninitialised field holds is an
-- argument. Memory allocation and msgsnd do not fail.
--
-- Fuel. The loop of releaseMutexes has fuel, since other threads run in its middle; each round
-- takes one entry off the list of the thread. As much fuel as there are entries is enough
-- (Spec/Rounds). A computation that runs out of it is `unfinished`, of which Safety says nothing. The
-- loop of MachineContextCreate that waits for its signal has fuel too; one round is enough
-- (Spec/Contexts).
--
-- Parameters. The operating system calls of the helper process (record Os); what msgget returns
-- (record Channels); what dlopen and dlsym find (record Library); what sscanf reads from an option
-- (`scan` of Api/Main); the bytes that a format gives to each of the two calls of vsnprintf, and the
-- addresses of the two buffers (Api/Print).
--
-- Not modelled. The saved actions of signals, a fork that fails, what happens to the channels once
-- the helper process has ended, the destructors of TCB and Mutex, messages to stderr, and the
-- example modules in apps, which are test programs over the calls. In Link a reply is handled at
-- any moment; in Program the reply handler runs in module code, when SIGUSR2 is due and not
-- blocked, as one step that handles all replies that are there. The source does not block SIGALRM in
-- that handler; the runs in which it comes there are not modelled. In both the identifiers of requests
-- do not run out, and requests have an int for each int, a C string for a name, and fit into a
-- message, also the data that a read asks for. The calls do not check what `Allowed` of System/Defs asks for.
pub mod Prelude
pub mod Machine
pub mod Vm
pub mod Link
pub mod Api
pub mod Safety
pub mod Spec
pub mod Quiet
pub mod System
pub mod Program
pub mod Tests
