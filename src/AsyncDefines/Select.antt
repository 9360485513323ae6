-- ===== src/AsyncDefines/Select.antt =====
-- What src/async_defines.h chooses is what the other files compile and what src/main.c names.
use lua_mtint.Base.{
  ◌<◌, ◌≡◌, ◌⊎◌, inl, inr, refl, ◌∙◌, true, false, ◌&&◌, not, none, some, arith, leb, Bool-cases,
}
use lua_mtint.Atomic.Backends.{Backend, win32, stdatomic, gnu}
use lua_mtint.Sync.{Platform, pthread, winthread, stdthread}
use lua_mtint.AsyncDefines.{
  Flags, Compiler, is_invalid, choose_atomics, choose_threads, async_defines, compiled_atomics,
  compiled_threads, info_atomics, info_threads, atomics, threads, is_unknown, Selects,
}

-- What is chosen once the atomics are.
threads-choose :
    (c : Compiler) (f : Flags)
    → threads f < 2
    → (p : Platform) × (compiled_threads (choose_threads c f) ≡ some p)
      × (info_threads (choose_threads c f) ≡ some p)
unfolding choose_threads
threads-choose c f few = elim (Bool-cases f.use_winthread) [
  | inl w ↦ (winthread, ground (arith, w), ground (arith, w))
  | inr w ↦ elim (Bool-cases f.use_pthread) [
    | inl p ↦ (pthread, ground (arith, w, p), ground (arith, w, p))
    | inr p ↦ elim (Bool-cases f.use_stdthread) [
      | inl s ↦ (stdthread, ground (arith, w, p, s), ground (arith, w, p, s))
      | inr s ↦ elim (Bool-cases f.use_win32) [
        | inl a ↦ (winthread, ground (arith, w, p, s, a), ground (arith, w, p, s, a))
        | inr a ↦ elim (Bool-cases (leb 600 c.xopen_version)) [
          | inl x ↦ (pthread, ground (arith, w, p, s, a, x), ground (arith, w, p, s, a, x))
          | inr x ↦ elim (Bool-cases (leb 201112 c.stdc_version && not c.stdc_no_threads)) [
            | inl y ↦
                (stdthread, ground (arith, w, p, s, a, x, y), ground (arith, w, p, s, a, x, y))
            | inr y ↦ (pthread, ground (arith, w, p, s, a, x, y), ground (arith, w, p, s, a, x, y))
          ]
        ]
      ]
    ]
  ]
]

abbrev Chooses : Compiler → Flags → Type 0
Chooses c f =
    ((choose_atomics c f ≡ none) × ((1 < atomics f) ⊎ ((atomics f ≡ 0) × (is_unknown c ≡ true))))
    ⊎ ((f' : Flags) × (b : Backend) × (choose_atomics c f ≡ some f')
        × (compiled_atomics f' ≡ some b)
        × (info_atomics f' ≡ some b)
        × (threads f' ≡ threads f))

-- None of the flags for atomics is given.
unset-Chooses :
    (c : Compiler) (f : Flags)
    → f.use_win32 ≡ false
    → f.use_stdatomic ≡ false
    → f.use_gnu ≡ false
    → Chooses c f
unfolding choose_atomics
unset-Chooses c f w s g = elim (Bool-cases c.windows) [
  | inl x ↦ inr (record f { use_win32 = true }, win32, ground (arith, w, s, g, x), refl, refl, refl)
  | inr x ↦ elim (Bool-cases c.gnuc) [
    | inl y ↦ inr (
      record f { use_gnu = true },
      gnu,
      ground (arith, w, s, g, x, y),
      ground (arith, w, s),
      ground (arith, w, s),
      refl,
    )
    | inr y ↦ elim (Bool-cases (leb 201112 c.stdc_version && not c.stdc_no_atomics)) [
      | inl z ↦ inr (
        record f { use_stdatomic = true },
        stdatomic,
        ground (arith, w, s, g, x, y, z),
        ground (arith, w),
        ground (arith, w, g),
        refl,
      )
      | inr z ↦
          inl (
            ground (arith, w, s, g, x, y, z),
            inr (ground (arith, w, s, g), ground (arith, x, y, z)),
          )
    ]
  ]
]

choose_atomics-Chooses : (c : Compiler) (f : Flags) → Chooses c f
unfolding choose_atomics
choose_atomics-Chooses c f = elim (Bool-cases (is_invalid f)) [
  | inl e ↦ inl (ground (arith, e), inl (ground (arith, e)))
  | inr e ↦ elim (Bool-cases f.use_win32) [
    | inl w ↦ inr (f, win32, ground (arith, e, w), ground (arith, w), ground (arith, w), refl)
    | inr w ↦ elim (Bool-cases f.use_stdatomic) [
      | inl s ↦ inr (
        f,
        stdatomic,
        ground (arith, e, w, s),
        ground (arith, w, s),
        ground (arith, e, w, s),
        refl,
      )
      | inr s ↦ elim (Bool-cases f.use_gnu) [
        | inl g ↦ inr (
          f,
          gnu,
          ground (arith, e, w, s, g),
          ground (arith, w, s, g),
          ground (arith, w, g),
          refl,
        )
        | inr g ↦ unset-Chooses c f w s g
      ]
    ]
  ]
]

-- The choice for threads leaves the flags for atomics alone.
compiled-choose_threads :
    (c : Compiler) (f : Flags)
    → (compiled_atomics (choose_threads c f) ≡ compiled_atomics f)
      × (info_atomics (choose_threads c f) ≡ info_atomics f)
unfolding choose_threads
compiled-choose_threads c f =
    let w : (choose_threads c f).use_win32 ≡ f.use_win32 = ground arith in
    let s : (choose_threads c f).use_stdatomic ≡ f.use_stdatomic = ground arith in
    let g : (choose_threads c f).use_gnu ≡ f.use_gnu = ground arith in
    (rw (w, s, g) refl, rw (w, s, g) refl)

-- If at most one flag for threads is given, src/async_defines.h either stops with an #error, where more than
-- one flag for atomics is given, or none is and the compiler has none of them; or the functions of
-- src/async_util.h have a version for atomics and a version for threads, and mtint._INFO names these two.
pub async_defines_lem : (c : Compiler) (f : Flags) → threads f < 2 → Selects c f
unfolding async_defines
async_defines_lem c f few = elim (choose_atomics-Chooses c f) [
  | inl (run, why) ↦ inl (ground (arith, run), why)
  | inr (f', b, run, compiled, info, same) ↦
      let (p, compiled', info') = threads-choose c f' (omega (arith, same)) in
      let (kept, kept') = compiled-choose_threads c f' in
      inr (
        choose_threads c f',
        b,
        p,
        ground (arith, run),
        kept ∙ compiled,
        kept' ∙ info,
        compiled',
        info',
      )
]
