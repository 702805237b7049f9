-- ===== src/Lib.antt =====
-- The Rust runtime of the inner-unikernel kernel extensions (rust-inner-unikernels), modelled as
-- functions over explicit state, with the theorems that its parts rely on.
--
-- The program. A kernel extension is a Rust crate that links against inner_unikernel_rt. The
-- kernel calls one of the entry points of inner_unikernel_rt/src/lib.rs with a context pointer;
-- the program type (kprobe, tracepoint, perf_event, xdp, sched_cls) turns the pointer into a safe
-- context, runs the extension and gives the kernel a number. While it runs, the extension calls
-- helpers (base_helper.rs), which check their arguments and call the kernel (stub.rs). If it
-- panics, the handler of panic.rs runs the clean-up functions that were registered on this CPU and
-- jumps back into the kernel with a message. The macro crate struct_filter decides which
-- structures may be laid over packet memory. Apart from the runtime, the repository holds a kernel
-- module in C that schedules periodic tasks by their rate (rate-monotonic-scheduler).
--
-- The files, and the code that each is about (paths below rust-inner-unikernels/inner_unikernel_rt/src
-- unless they name another crate):
--   Prelude        Boolean tests, lists, panics, bits, machine words and slices, which all files share
--   Build          the byte order and the profile (debug assertions, overflow checks) of a build
--   Bitfield       perf_event/binding.rs, `__BindgenBitfieldUnit`: get_bit, set_bit, get, set
--   PerfBinding    perf_event/binding.rs, the accessors of perf_branch_entry and perf_mem_data_src
--   Cleanup        panic.rs: CleanupEntry, CleanupEntries, the stack check; Cleanup.Message the handler
--   Strings        base_helper.rs, bpf_strcmp and bpf_strncmp
--   Utils          utils.rs: to_result!, u16be; and `unwrap_or_else` of the entry points
--   Checksum       xdp/xdp_impl.rs, compute_ip_checksum
--   PerCpu         per_cpu.rs, and the statics of stub.rs as the record Symbols
--   Layout         perf_event/binding.rs: how its structures lie in memory (Layout.Perf), and
--                  `__IncompleteArrayField` (Layout.Array)
--   Registers      kprobe/binding.rs (and its copy in perf_event/binding.rs)
--   Task           task_struct.rs
--   BaseHelper     base_helper.rs and map.rs: the helpers, with the kernel's calls as records;
--                  BaseHelper.Methods the object of `base_helper_defs!`
--   Packet, Xdp    xdp/xdp_impl.rs: header access and the XDP context
--   SchedCls       sched_cls/sched_cls_impl.rs
--   Programs       kprobe/kprobe_impl.rs, tracepoint/tp_impl.rs, perf_event/perf_event_impl.rs, lib.rs
--   Random         random32.rs
--   Timekeeping    timekeeping.rs: the fast clock; Timekeeping.Clocks the clocks on top of it
--   Seqlock        seqlock.rs, read_once.rs and barrier.rs: the read side of a sequence counter
--   Spinlock       spinlock.rs: the guard, and what scopes and panics do with it
--   Sysctl         sysctl.rs: numbers from texts, and the values of a kernel parameter
--   Samples        samples/map_test, samples/tracex5, samples/hello and samples/mp4-sample
--   StructFilter   struct_filter/src/lib.rs of the macro crate; StructFilter.Access the bound of utils.rs
--   RateMonotonic  mp2.c of the project rate-monotonic-scheduler: RateMonotonic.Tasks its list of
--                  tasks, RateMonotonic.Command `mp2_write` and the messages of userapp.c,
--                  RateMonotonic.Status `mp2_read`
--   BuildScript    build.rs of the crate inner_unikernel_rt
--   Tests          the theorems at concrete inputs
--
-- State and errors. Every operation takes the state it reads and returns the state it leaves. A
-- Rust panic is a value (Outcome): nothing after it runs. Status codes are the numbers that the
-- code returns, at the width of the source; a signed word is its two's complement pattern. Where
-- the source adds, subtracts or shifts words, the model follows the profile: it panics on overflow
-- where the checks are compiled in and wraps around where they are not.
--
-- Loops are structural recursion, on the list that the loop runs over or on the number of rounds
-- left. Only the retry loop of the fast clock has no bound in the source; it takes a number of
-- rounds, and one round in which the kernel does not update the clock is enough. An array of bytes
-- is a list; an access outside it panics.
--
-- Parameters. The kernel's functions, its memory and data structures, the constants and structures
-- that are generated at build time (EINVAL, XDP_PASS, TC_ACT_OK, the sizes of the protocol
-- headers) and the parsed form of a Rust type are arguments. What the kernel promises of a map is
-- the record MapContract, and of the clock's latch the record Latched. A pointer to memory is an
-- address, and reading memory never faults.
--
-- The samples use the helpers through two interfaces: MapContract, what the kernel promises of a
-- map, and BaseHelper.Traced, which adds the log of the lines that a program asks to print.
--
-- The scheduler. Each function of mp2.c that takes the lock is one step on a record with the list of
-- tasks, the pointer to the current one, the number of objects in use and a log of the calls that
-- concern processes. Reading freed memory, dividing by zero, writing out of bounds and their like are
-- values (Checked). Registration checks admission and then takes the lock again, so that a step
-- relation has only its second half.
--
-- Not modelled: printing with C variadic arguments (debug.rs); the loader in C++ (libiu); the main
-- program of userapp.c; and the projects page-fault-profiler and ebpf_xdp_blocker, which are in C.
-- lib.rs does not compile sysctl.rs, timekeeping.rs and seqlock.rs at present; they are modelled as
-- they stand.
pub mod Prelude
pub mod Build
pub mod BuildScript
pub mod Bitfield
pub mod PerfBinding
pub mod Cleanup
pub mod Strings
pub mod Utils
pub mod Checksum
pub mod PerCpu
pub mod Layout
pub mod Registers
pub mod Task
pub mod BaseHelper
pub mod Packet
pub mod Xdp
pub mod SchedCls
pub mod Programs
pub mod Spinlock
pub mod Sysctl
pub mod Samples
pub mod Random
pub mod StructFilter
pub mod RateMonotonic
pub mod Tests
pub mod Timekeeping
pub mod Seqlock
