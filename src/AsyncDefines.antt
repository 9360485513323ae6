-- ===== src/AsyncDefines.antt =====
-- The choice of a platform: src/async_defines.h, and the two names of it in src/main.c.
pub mod Select
use lua_mtint.Base.{
  ℕ, ◌+◌, ◌<◌, ◌≡◌, ◌⊎◌, inl, inr, refl, ◌∙◌, Bool, true, false, ◌&&◌, ◌||◌, not, Option, none,
  some, arith, leb, if◌then◌else◌, Bool-cases,
}
use lua_mtint.Atomic.Backends.{Backend, win32, stdatomic, gnu}
use lua_mtint.Sync.{Platform, pthread, winthread, stdthread}

-- The macros MTINT_ASYNC_USE_... that are defined.
pub record Flags : Type 0 where
  pub use_win32 : Bool
  pub use_stdatomic : Bool
  pub use_gnu : Bool
  pub use_winthread : Bool
  pub use_pthread : Bool
  pub use_stdthread : Bool

-- What the compiler and its headers define; a macro that is not defined counts as 0, and `windows` is
-- that WIN32 or _WIN32 is.
pub record Compiler : Type 0 where
  pub windows : Bool
  pub gnuc : Bool
  pub stdc_version : ℕ
  pub stdc_no_atomics : Bool
  pub stdc_no_threads : Bool
  pub xopen_version : ℕ

-- The first three tests, each an #error.
abbrev pub is_invalid : Flags → Bool
is_invalid f =
    f.use_win32 && (f.use_stdatomic || f.use_gnu)
    || f.use_stdatomic && (f.use_win32 || f.use_gnu)
    || f.use_gnu && (f.use_win32 || f.use_stdatomic)

-- `none` is an #error.
unfoldable pub choose_atomics : Compiler → Flags → Option Flags
choose_atomics c f =
    if is_invalid f
    then none
    else if not f.use_win32 && not f.use_stdatomic && not f.use_gnu
    then if c.windows
      then some (record f { use_win32 = true })
      else if c.gnuc
      then some (record f { use_gnu = true })
      else if leb 201112 c.stdc_version && not c.stdc_no_atomics
      then some (record f { use_stdatomic = true })
      else none
    else some f

unfoldable pub choose_threads : Compiler → Flags → Flags
choose_threads c f =
    if not f.use_winthread && not f.use_pthread && not f.use_stdthread
    then if f.use_win32
      then record f { use_winthread = true }
      else if leb 600 c.xopen_version
      then record f { use_pthread = true }
      else if leb 201112 c.stdc_version && not c.stdc_no_threads
      then record f { use_stdthread = true }
      else record f { use_pthread = true }
    else f

-- The flags that the other files see.
unfoldable pub async_defines : Compiler → Flags → Option Flags
unfolding choose_atomics choose_threads
async_defines c f = elim (choose_atomics c f) [ none ↦ none | some f' ↦ some (choose_threads c f') ]

-- The branch of the #if in src/async_util.h that is compiled.
abbrev pub compiled_atomics : Flags → Option Backend
compiled_atomics f =
    if f.use_win32
    then some win32
    else if f.use_stdatomic
    then some stdatomic
    else if f.use_gnu
    then some gnu
    else none

abbrev pub compiled_threads : Flags → Option Platform
compiled_threads f =
    if f.use_pthread
    then some pthread
    else if f.use_winthread
    then some winthread
    else if f.use_stdthread
    then some stdthread
    else none

-- MTINT_INFO1 and MTINT_INFO2, of which mtint._INFO is made.
abbrev pub info_atomics : Flags → Option Backend
info_atomics f =
    if f.use_win32
    then some win32
    else if f.use_gnu
    then some gnu
    else if f.use_stdatomic
    then some stdatomic
    else none

abbrev pub info_threads : Flags → Option Platform
info_threads f =
    if f.use_winthread
    then some winthread
    else if f.use_pthread
    then some pthread
    else if f.use_stdthread
    then some stdthread
    else none

abbrev pub one_if : Bool → ℕ
one_if true = 1
one_if false = 0

-- How many of the flags for atomics, and for threads, are defined.
abbrev pub atomics : Flags → ℕ
atomics f = one_if f.use_win32 + one_if f.use_stdatomic + one_if f.use_gnu

abbrev pub threads : Flags → ℕ
threads f = one_if f.use_winthread + one_if f.use_pthread + one_if f.use_stdthread

-- The compiler has none of the atomics.
abbrev pub is_unknown : Compiler → Bool
is_unknown c = not (c.windows || c.gnuc || leb 201112 c.stdc_version && not c.stdc_no_atomics)

abbrev pub Selects : Compiler → Flags → Type 0
Selects c f =
    ((async_defines c f ≡ none) × ((1 < atomics f) ⊎ ((atomics f ≡ 0) × (is_unknown c ≡ true))))
    ⊎ ((f' : Flags) × (b : Backend) × (p : Platform) × (async_defines c f ≡ some f')
        × (compiled_atomics f' ≡ some b)
        × (info_atomics f' ≡ some b)
        × (compiled_threads f' ≡ some p)
        × (info_threads f' ≡ some p))
