-- ===== src/OpenModule/Opens.antt =====
-- The fields of the table that require("mtint") returns.
use lua_mtint.Base.{
  ◌+◌, ◌≡◌, ◌≢◌, ◌≤◌, ◌<◌, ◌∙◌, inl, inr, refl, sym, ap, arith, false, ◌==◌, List, ◌∷◌, ◌++◌,
  ==_refl,
}
use lua_mtint.Errors.{
  Text, codes, error_name, ErrorName, not_supported, object_exists, object_closed, unknown_object,
  interrupted, out_of_memory, error_class_name,
}
use lua_mtint.Atomic.Backends.{Backend}
use lua_mtint.Sync.{Platform}
use lua_mtint.Lua.{
  Ref, Value, nil, text, function, table, Heap, lua, registry, mtint_id, mtint_set_hook,
  mtint_interrupt, mtint_interruptible, mt_interruptible_release, mt_interruptible_id,
}
use lua_mtint.Lua.Api.{LuaApi, set_functions}
use lua_mtint.Interruptible.Guards.{interruptible_class_name, module_functions}
use lua_mtint.Interruptible.Guards.Class.{IsClass, IsClassOrNil, Keeps, push_interruptible_meta_lem}
use lua_mtint.OpenModule.{info, open_module}
use lua_mtint.OpenModule.Fields.{with_errors, filled, finished, open_module_run}

-- What the module's table `m` and the table of the errors `e` have.
pub record IsModule (version : Text) (b : Backend) (p : Platform) (m e : Ref) (h : Heap)
    : Type 0 where
  pub version_is : h.field m (text (codes "_VERSION")) ≡ text version
  pub info_is : h.field m (text (codes "_INFO")) ≡ text (info b p)
  pub error_is : h.field m (text (codes "error")) ≡ table e
  pub id_is : h.field m (text (codes "id")) ≡ function mtint_id
  pub sethook_is : h.field m (text (codes "sethook")) ≡ function mtint_set_hook
  pub interrupt_is : h.field m (text (codes "interrupt")) ≡ function mtint_interrupt
  pub interruptible_is : h.field m (text (codes "interruptible")) ≡ function mtint_interruptible
  pub errors_are :
      (name : ErrorName)
      → h.field e (text (error_name name))
        ≡ text (error_class_name ++ (codes "." ++ error_name name))

error_field :
    (g : Heap) (e : Ref) (name : ErrorName)
    → (with_errors e g).field e (text (error_name name))
      ≡ text (error_class_name ++ (codes "." ++ error_name name))
error_field g e not_supported = rw ==_refl refl
error_field g e object_exists = rw ==_refl refl
error_field g e object_closed = rw ==_refl refl
error_field g e unknown_object = rw ==_refl refl
error_field g e interrupted = rw ==_refl refl
error_field g e out_of_memory = rw ==_refl refl

IsClass-Keeps : {h h' : Heap} (c : Ref) → IsClass c h → Keeps h h' → IsClass c h'
IsClass-Keeps {h} {h'} c class k = record {
  gc_is = k.field_eq c _ class.real class.exists ∙ class.gc_is;
  tostring_is = k.field_eq c _ class.real class.exists ∙ class.tostring_is;
  metatable_is = k.field_eq c _ class.real class.exists ∙ class.metatable_is;
  methods = class.methods;
  index_is = k.field_eq c _ class.real class.exists ∙ class.index_is;
  id_is = k.field_eq class.methods _ class.methods_real class.methods_exist ∙ class.id_is;
  interrupt_is =
      k.field_eq class.methods _ class.methods_real class.methods_exist ∙ class.interrupt_is;
  exists = omega (arith, k.next_le, class.exists);
  methods_exist = omega (arith, k.next_le, class.methods_exist);
  real = class.real;
  methods_real = class.methods_real;
}

module _ (version : Text) (b : Backend) (p : Platform) (h : Heap) (real : registry < h.next) where
  filled-Keeps : Keeps h (filled version b p h)
  filled-Keeps = record {
    next_le = omega arith;
    field_eq = λ t k real' lt. ground arith;
    registry_eq = λ k other. ground arith;
    metatable_eq = λ t lt. ground arith;
  }

  class-filled :
      (filled version b p h).field registry (text interruptible_class_name)
      ≡ h.field registry (text interruptible_class_name)
  class-filled = ground arith

  filled-IsClassOrNil : IsClassOrNil h → IsClassOrNil (filled version b p h)
  filled-IsClassOrNil (inl none') = inl (class-filled ∙ none')
  filled-IsClassOrNil (inr (c, is, class)) =
      inr (c, class-filled ∙ is, IsClass-Keeps c class filled-Keeps)

  -- `h'` is the heap with the metatable `c`.
  module _ (h' : Heap) (c : Ref) (k : Keeps (filled version b p h) h') (class : IsClass c h') where
    kept-module : (j : Value) → h'.field h.next j ≡ (filled version b p h).field h.next j
    kept-module j = k.field_eq h.next j real (omega arith)

    finished-IsModule : IsModule version b p h.next (h.next + 1) (finished version b p h h')
    finished-IsModule = record {
      version_is = ground (arith, kept-module (text (codes "_VERSION")));
      info_is = ground (arith, kept-module (text (codes "_INFO")));
      error_is = ground (arith, kept-module (text (codes "error")));
      id_is = ground arith;
      sethook_is = ground arith;
      interrupt_is = ground arith;
      interruptible_is = ground arith;
      errors_are = λ name. error_field (set_functions h.next module_functions h') (h.next + 1) name;
    }

    -- The metatable and the table of the methods are not the two tables of the module.
    class-ne : (q : Ref) → h.next ≤ q → q ≤ h.next + 1 → c ≢ q
    class-ne q low high same' =
        let kept : h'.field q (text (codes "__gc"))
            ≡ (filled version b p h).field q (text (codes "__gc")) =
          k.field_eq q _ (omega arith) (omega arith) in
        let none' : (filled version b p h).field q (text (codes "__gc")) ≡ nil = ground arith in
        let found : h'.field q (text (codes "__gc")) ≡ function mt_interruptible_release =
          ap (λ z. h'.field z (text (codes "__gc"))) (sym same') ∙ class.gc_is in
        cc

    methods-ne : (q : Ref) → h.next ≤ q → q ≤ h.next + 1 → class.methods ≢ q
    methods-ne q low high same' =
        let kept : h'.field q (text (codes "id"))
            ≡ (filled version b p h).field q (text (codes "id")) =
          k.field_eq q _ (omega arith) (omega arith) in
        let none' : (filled version b p h).field q (text (codes "id")) ≡ nil = ground arith in
        let found : h'.field q (text (codes "id")) ≡ function mt_interruptible_id =
          ap (λ z. h'.field z (text (codes "id"))) (sym same') ∙ class.id_is in
        cc

    plain-kept : (q : Ref) → h.next ≤ q → q ≤ h.next + 1 → h'.metatable (table q) ≡ nil
    plain-kept q low high = k.metatable_eq q (omega arith) ∙ ground arith

    -- Other tables are as they were in `h'`.
    finished-field :
        (t : Ref) (j : Value)
        → t ≢ h.next
        → t ≢ h.next + 1
        → (finished version b p h h').field t j ≡ h'.field t j
    finished-field t j ne_m ne_e =
        let other_m : (h.next == t) ≡ false = ground arith in
        let other_e : ((h.next + 1) == t) ≡ false = ground arith in rw other_e (rw other_m refl)

    finished-IsClass : IsClass c (finished version b p h h')
    finished-IsClass = record {
      gc_is = of_class (text (codes "__gc")) ∙ class.gc_is;
      tostring_is = of_class (text (codes "__tostring")) ∙ class.tostring_is;
      metatable_is = of_class (text (codes "__metatable")) ∙ class.metatable_is;
      methods = class.methods;
      index_is = of_class (text (codes "__index")) ∙ class.index_is;
      id_is = of_methods (text (codes "id")) ∙ class.id_is;
      interrupt_is = of_methods (text (codes "interrupt")) ∙ class.interrupt_is;
      exists = class.exists;
      methods_exist = class.methods_exist;
      real = class.real;
      methods_real = class.methods_real;
    }
      where
        of_class : (j : Value) → (finished version b p h h').field c j ≡ h'.field c j
        of_class j =
            finished-field c j (class-ne h.next (omega arith) (omega arith))
              (class-ne (h.next + 1) (omega arith) (omega arith))

        of_methods :
            (j : Value)
            → (finished version b p h h').field class.methods j ≡ h'.field class.methods j
        of_methods j =
            finished-field class.methods j (methods-ne h.next (omega arith) (omega arith))
              (methods-ne (h.next + 1) (omega arith) (omega arith))

    finished-Keeps : Keeps h (finished version b p h h')
    finished-Keeps = record {
      next_le = omega (arith, k.next_le);
      field_eq = λ t j real' lt.
          finished-field t j (omega arith) (omega arith)
          ∙ k.field_eq t j real' (omega arith)
          ∙ filled-Keeps.field_eq t j real' lt;
      registry_eq = λ j other.
          finished-field registry j (omega arith) (omega arith)
          ∙ k.registry_eq j other
          ∙ filled-Keeps.registry_eq j other;
      metatable_eq = λ t lt. k.metatable_eq t (omega arith) ∙ filled-Keeps.metatable_eq t lt;
    }

-- luaopen_mtint, once the Lua state has its sentinel: the one new value on the stack is the module's
-- table, with the version, the platform, the four functions and the table of the errors, each under
-- its name. The registry then has the metatable with the finalizer and the two methods, whether it had
-- it before or not. Older tables keep their fields, and so does the registry but for the metatable.
pub open_module_lem :
    (api : LuaApi) (version : Text) (b : Backend) (p : Platform) (st : List Value) (h : Heap)
    → registry < h.next
    → IsClassOrNil h
    → (h' : Heap) × (m e c : Ref) × (open_module api version b p (lua st h) ≡ lua (table m ∷ st) h')
      × IsModule version b p m e h'
      × (h'.field registry (text interruptible_class_name) ≡ table c)
      × IsClass c h'
      × Keeps h h'
open_module_lem api version b p st h real class_or =
    let (h', c, run, is, class, k) =
      push_interruptible_meta_lem api (table (h.next + 1) ∷ table h.next ∷ st)
        (filled version b p h) (omega arith) (filled-IsClassOrNil version b p h real class_or) in
    (
      finished version b p h h',
      h.next,
      h.next + 1,
      c,
      open_module_run api version b p st h h' c run
          (plain-kept version b p h real h' c k class h.next (omega arith) (omega arith))
          (plain-kept version b p h real h' c k class (h.next + 1) (omega arith) (omega arith)),
      finished-IsModule version b p h real h' c k class,
      finished-field version b p h real h' c k class registry _ (omega arith) (omega arith) ∙ is,
      finished-IsClass version b p h real h' c k class,
      finished-Keeps version b p h real h' c k class,
    )
