-- ===== src/Lua.antt =====
-- The part of a Lua state that the sources work on through Lua's C API: the stack, the tables with
-- the registry among them, and the metatables of tables and user data.

pub mod Api
pub mod Rules
use lua_mtint.Base.{
  ℕ, ◌+◌, ◌-◌, Bool, true, false, ◌&&◌, Option, none, some, List, [], ◌∷◌, ◌==◌, if◌then◌else◌, suc,
  length,
}
use lua_mtint.Base.Int.{ℤ, eqb_ℤ}
use lua_mtint.Errors.{Text}

-- A number that names a table, user data, or a Lua state with its threads. Table 0 is the registry.
abbrev pub Ref : Type 0
Ref = ℕ

-- The addresses that the sources push as light user data.
pub data Address : Type 0 where
  module_name : Address
  coroutine_guard_class_name : Address
  initialized : Address

-- The C functions that Lua is given.
pub data CFunction : Type 0 where
  guard_coroutine_release : CFunction
  mt_interruptible_id : CFunction
  mt_interruptible_interrupt : CFunction
  mt_interruptible_to_string : CFunction
  mt_interruptible_release : CFunction
  mtint_id : CFunction
  mtint_set_hook : CFunction
  mtint_interrupt : CFunction
  mtint_interruptible : CFunction
  handle_closing_lua_state : CFunction

pub data Value : Type 0 where
  nil : Value
  boolean : Bool → Value
  integer : ℤ → Value
  text : Text → Value
  light : Address → Value
  function : CFunction → Value
  closure : Ref → Value  -- a function that is written in Lua
  table : Ref → Value
  userdata : Ref → Value
  thread : Ref → Value

-- What lua_type returns.
pub data LuaType : Type 0 where
  lua_tnil : LuaType
  lua_tboolean : LuaType
  lua_tlightuserdata : LuaType
  lua_tnumber : LuaType
  lua_tstring : LuaType
  lua_ttable : LuaType
  lua_tfunction : LuaType
  lua_tuserdata : LuaType
  lua_tthread : LuaType

abbrev pub kind : Value → LuaType
kind nil = lua_tnil
kind (boolean b) = lua_tboolean
kind (integer i) = lua_tnumber
kind (text t) = lua_tstring
kind (light a) = lua_tlightuserdata
kind (function f) = lua_tfunction
kind (closure c) = lua_tfunction
kind (table t) = lua_ttable
kind (userdata u) = lua_tuserdata
kind (thread l) = lua_tthread

abbrev pub address_number : Address → ℕ
address_number module_name = 0
address_number coroutine_guard_class_name = 1
address_number initialized = 2

abbrev pub function_number : CFunction → ℕ
function_number guard_coroutine_release = 0
function_number mt_interruptible_id = 1
function_number mt_interruptible_interrupt = 2
function_number mt_interruptible_to_string = 3
function_number mt_interruptible_release = 4
function_number mtint_id = 5
function_number mtint_set_hook = 6
function_number mtint_interrupt = 7
function_number mtint_interruptible = 8
function_number handle_closing_lua_state = 9

abbrev pub same_bool : Bool → Bool → Bool
same_bool true b = b
same_bool false true = false
same_bool false false = true

abbrev pub same_text : Text → Text → Bool
same_text [] [] = true
same_text (a ∷ s) (b ∷ t) = (a == b) && same_text s t
same_text _ _ = false

-- Equality of values, without metamethods.
abbrev pub same : Value → Value → Bool
same nil nil = true
same (boolean a) (boolean b) = same_bool a b
same (integer a) (integer b) = eqb_ℤ a b
same (text a) (text b) = same_text a b
same (light a) (light b) = address_number a == address_number b
same (function a) (function b) = function_number a == function_number b
same (closure a) (closure b) = a == b
same (table a) (table b) = a == b
same (userdata a) (userdata b) = a == b
same (thread a) (thread b) = a == b
same _ _ = false

-- The fields of each table, the metatables, and the user values of user data, `nil` where there is
-- none; and how many tables and user data there have been, the registry included.
pub record Heap : Type 0 where
  pub field : Ref → Value → Value
  pub metatable : Value → Value
  pub uservalue : Ref → Value
  pub next : Ref

abbrev pub registry : Ref
registry = 0

abbrev pub set_field : Ref → Value → Value → Heap → Heap
set_field t k v h = record h { field = λ q j. if t == q && same k j then v else h.field q j }

abbrev pub set_metatable : Value → Value → Heap → Heap
set_metatable x m h = record h { metatable = λ y. if same x y then m else h.metatable y }

abbrev pub set_uservalue : Ref → Value → Heap → Heap
set_uservalue u v h = record h { uservalue = λ q. if u == q then v else h.uservalue q }

-- The table `h.next`, which is empty.
abbrev pub new_table : Heap → Heap
new_table h = record {
  field = λ q j. if h.next == q then nil else h.field q j;
  metatable = λ y. if same (table h.next) y then nil else h.metatable y;
  uservalue = h.uservalue;
  next = h.next + 1;
}

-- The user data `h.next`, without a metatable.
abbrev pub new_userdata : Heap → Heap
new_userdata h = record {
  field = h.field;
  metatable = λ y. if same (userdata h.next) y then nil else h.metatable y;
  uservalue = λ u. if h.next == u then nil else h.uservalue u;
  next = h.next + 1;
}

-- The stack has its top in front.
pub record LuaState : Type 0 where
  pub stack : List Value
  pub heap : Heap

-- One call after another.
infixl 5 ◌▷◌
abbrev pub ◌▷◌ {ℓ} : {A : Type ℓ} → LuaState → (LuaState → A) → A
s ▷ f = f s

abbrev pub lua : List Value → Heap → LuaState
lua st h = record { stack = st; heap = h }

-- The index -k, the index n counted from the bottom, and LUA_REGISTRYINDEX.
pub data Index : Type 0 where
  top : (k : ℕ) → Index
  slot : (n : ℕ) → Index
  registry_index : Index

abbrev pub from_top : ℕ → List Value → Option Value
from_top k [] = none
from_top k (v ∷ st) = if k == 1 then some v else from_top (k - 1) st

abbrev pub from_bottom : ℕ → List Value → Option Value
from_bottom n [] = none
from_bottom n (v ∷ st) = if n == suc (length st) then some v else from_bottom n st

abbrev pub value_at : Index → List Value → Option Value
value_at (top k) st = from_top k st
value_at (slot n) st = from_bottom n st
value_at registry_index st = some (table registry)
