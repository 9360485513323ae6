-- ===== src/Interruptible/Guards/Represents.antt =====
-- A lookup table as a map from threads to user data, and the map after a guard is entered.
use lua_mtint.Base.{◌≡◌, ◌<◌, ◌∙◌, arith, true, Option, some}
use lua_mtint.Base.Int.{pos}
use lua_mtint.Lua.{
  Ref, Value, integer, table, userdata, thread, Heap, set_field, set_metatable, registry,
}
use lua_mtint.Lua.Api.{is_of_class}
use lua_mtint.Interruptible.Guards.{interruptible_class_name}
use lua_mtint.Interruptible.Guards.Tables.{guard_udata, lookup_table, guard_meta_table}
use lua_mtint.Interruptible.Store.{update}
use lua_mtint.Interruptible.Guards.Entry.{guard_of-entered, entered-IsSound}
use lua_mtint.Interruptible.Guards.Lookup.{guard_of, IsTableOrNil, IsSound}
use lua_mtint.Interruptible.Guards.Extends.{
  Extends, Extends-set_metatable, Extends-is_of_class, Extends-guard_of, Extends-IsSound,
}

-- What the lookup table of a Lua state stands for: the user data of each thread.
abbrev pub Represents : Heap → (Ref → Option Ref) → Type 0
Represents h lookup = (q : Ref) → guard_of h q ≡ lookup q

-- A sound heap with the lookup table `t`, which stands for `lookup`.
pub record HasTable (h : Heap) (t : Ref) (lookup : Ref → Option Ref) : Type 0 where
  pub sound : IsSound h
  pub is : lookup_table h ≡ table t
  pub real : registry < t
  pub represents : Represents h lookup

pub enter :
    (h : Heap) (t : Ref) (lookup : Ref → Option Ref) (l u : Ref) (v : Value)
    → HasTable h t lookup
    → guard_udata v h ≡ some u
    → ((g : Ref) → v ≡ table g → (registry < g) × (g < h.next))
    → IsSound (set_field t (thread l) v h)
      × Represents (set_field t (thread l) v h) (update lookup l (some u))
enter h t lookup l u v has leads new' = (
  entered-IsSound h has.sound t has.is has.real l v new',
  λ q. guard_of-entered h has.sound t has.is has.real l v q ∙ rw (leads, has.represents q),
)

-- A guard table `h1.next` for the coroutine, in a heap `h2` that extends `h1` and has its metatable.
module _ (u l : Ref) (h1 h2 : Heap) (t m : Ref) (lookup : Ref → Option Ref)
    (has : HasTable h1 t lookup) (ext : Extends h1 h2) (more : h1.next < h2.next)
    (first : h2.field h1.next (integer (pos 1)) ≡ userdata u)
    (meta : IsTableOrNil (guard_meta_table h2) h2)
    (class : is_of_class interruptible_class_name u h1 ≡ true) where
  abbrev pub guarded : Heap
  guarded = set_metatable (table h1.next) (table m) h2

  guarded-Extends : Extends h1 guarded
  guarded-Extends = Extends-set_metatable h1.next (table m) ext

  guarded-HasTable : HasTable guarded t lookup
  guarded-HasTable = record {
    sound = Extends-IsSound has.sound guarded-Extends meta;
    is = guarded-Extends.lookup_eq ∙ has.is;
    real = has.real;
    represents = λ q. Extends-guard_of q has.sound guarded-Extends ∙ has.represents q;
  }

  guarded-leads : guard_udata (table h1.next) guarded ≡ some u
  guarded-leads = rw first (rw (Extends-is_of_class u guarded-Extends, class))

  pub guarded-enter :
      IsSound (set_field t (thread l) (table h1.next) guarded)
      × Represents (set_field t (thread l) (table h1.next) guarded) (update lookup l (some u))
  guarded-enter =
      enter guarded t lookup l u (table h1.next) guarded-HasTable guarded-leads
        (λ g e. let same : h1.next ≡ g = cc in (omega (arith, has.sound.has_registry), omega arith))
