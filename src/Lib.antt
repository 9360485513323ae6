-- ===== src/Lib.antt =====
-- Models and proofs for lua-mtint, a C library that makes Lua states interruptible from other
-- threads.
--
-- The parts of the program, with the modules that model them:
--   * src/interruptible.c keeps every interruptible object in a hash table by id, a bucket array with
--     doubly linked chains. Interruptible.Store has the memory: struct MtInterruptible,
--     InterruptibleBucket and the four static variables, with commands that stop at a fault where C's
--     behaviour is undefined (a pointer to nothing, an index out of bounds). Interruptible.Buckets has
--     toBuckets, newBuckets, findInterruptibleWithId, MtInterruptible_free, and the critical section
--     of assureCreatedMtInterruptible (`register`). Interruptible.Chain and Interruptible.Table say
--     what a valid table is and prove what the functions do.
--     Interruptible.Objects has the functions that Lua calls, over a World of that memory, the user
--     data, the hooks of the Lua states and the lookup table; a function runs there without
--     interruption by another thread; Interruptible.Objects.Race has one interleaving of two threads,
--     at the reference count. Interruptible.Objects.Hooks has the hooks.
--     Interruptible.Objects.Accounting has any sequence of calls of these functions, as events, and
--     compares the reference counts with the user data, which are numbered below a bound.
--     Interruptible.Objects.Signals has mtint_interrupt and the finalizers as steps of any number of
--     threads under the lock of the object; Interruptible.Objects.Holders has the steps of any number of
--     threads on one reference count; Interruptible.Objects.Description the text of tostring.
--     Interruptible.Guards has the lookup table, the guards in it and the metatables, as the calls of
--     Lua's C API that make them; it is the map `lookup` of the World that a lookup table stands for.
--     Interruptible.Guards.Hooks has the user value, in which a hook is set and found, in the same way.
--   * Lua's C API is a parameter. Lua says what the sources work on, a stack with tables and user data;
--     Lua.Api has the functions with what the Lua manual says of them, and Lua.Rules what rewriting
--     needs of it.
--   * src/async_util.h has counters and pointers that threads share. Atomic and Atomic.Backends model
--     them over the primitives of each platform, which are parameters with their documented behaviour.
--   * src/util.c has a growing byte buffer (Util.MemBuffer) and the quotation of strings
--     (Util.Quote). malloc, realloc and the product with growFactor are parameters.
--   * src/error.c raises and publishes errors (Errors). How numbers are printed is a parameter.
--   * src/main.c loads the library. Startup has the steps of any number of threads up to the barrier on
--     initStage, one atomic access or one round of the waiting loop to a step, and Startup.Progress how
--     far they take a thread, with Startup.Progress.Schedule for the schedules of these steps;
--     Startup.Seed the seed of the ids, Startup.States the Lua states that load the library and close.
--     OpenModule has the sentinel of a Lua state and the table that is returned, with what src/error.c
--     and src/interruptible.c enter in it.
--   * src/async_util.h and src/async_util.c have recursive locks, and mutexes with a condition to wait
--     for, on three platforms. Sync says what they promise, Sync.Primitives what the platforms are
--     assumed to do, Sync.Locks and Sync.Mutexes have the functions, and Sync.Destruct the destructors;
--     Sync.Monitor has the condition that is made of an event on Windows, with any number of threads.
--     Deadline is the deadline of a wait.
--   * src/async_defines.h chooses the platform at compile time, and src/main.c names it. AsyncDefines has
--     the tests of the preprocessor on the macros that are defined.
--   * Base passes on the names that the modules share; Examples has concrete inputs.
--
-- How the model corresponds to the code. A pointer is a number, NULL is 0; a `MtInterruptible**` is
-- a slot, which is NULL or names a bucket's head or an object's next pointer. `calloc` is a
-- parameter: its result is NULL or an address without an array. An int that is an atomic counter is its
-- bit pattern, with wrap-around at 2 ^ 32; an id is an integer. Where C leaves the overflow of an int
-- undefined, the model has a fault (`int_mul`) or no result (`atomic_inc`, `quote_lstring`); a timeout is
-- not negative.
--
-- Fuel. A walk along a chain gets one more than interruptible_counter; since the counter counts the
-- objects of all chains, this is enough on a valid table, and the theorems state that the walk ends.
--
-- Not modelled: interleavings of threads within a function other than those of the steps above; the
-- checks of arguments and the results on Lua's stack of the functions that Lua calls; the collection of
-- garbage in Lua, by which a weak key leaves the lookup table, and its errors for want of memory; the
-- clock in src/util.c; the includes of src/async_defines.h; and src/compat-5.3.c, a copy of another
-- library.
pub mod AsyncDefines
pub mod Base
pub mod Atomic
pub mod Interruptible
pub mod Util
pub mod Errors
pub mod Lua
pub mod OpenModule
pub mod Startup
pub mod Deadline
pub mod Sync
pub mod Examples
