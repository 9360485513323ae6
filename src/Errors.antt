-- ===== src/Errors.antt =====
-- The error messages of src/error.c. A text is the list of its bytes.
pub mod Kinds
use lua_mtint.Base.{ℕ, suc, ◌+◌, ◌-◌, ◌%◌, ◌^◌, Option, none, some, List, [], ◌∷◌, ◌++◌}
use lua_mtint.Base.Int.{ℤ, pos, negsuc, signed32}
use Prim.Native.String
use Prim.Native.String.{String}
use Prim.Native.Char.{code}

abbrev pub Text : Type 0
Text = List ℕ

abbrev pub codes : String → Text
codes String.[] = []
codes (String.◌∷◌ c s) = code c ∷ codes s

-- One for each of the constants MTINT_ERROR_NOT_SUPPORTED to MTINT_ERROR_OUT_OF_MEMORY.
pub data ErrorName : Type 0 where
  not_supported : ErrorName
  object_exists : ErrorName
  object_closed : ErrorName
  unknown_object : ErrorName
  interrupted : ErrorName
  out_of_memory : ErrorName

abbrev pub error_name : ErrorName → Text
error_name not_supported = codes "not_supported"
error_name object_exists = codes "object_exists"
error_name object_closed = codes "object_closed"
error_name unknown_object = codes "unknown_object"
error_name interrupted = codes "interrupted"
error_name out_of_memory = codes "out_of_memory"

abbrev pub error_class_name : Text
error_class_name = codes "mtint.error"

-- `details` is `none` where the code passes the stack index 0.
unfoldable pub push_error_message : ErrorName → (details : Option Text) → Text
push_error_message name none = error_class_name ++ (codes "." ++ error_name name)
push_error_message name (some details) =
    error_class_name ++ (codes "." ++ (error_name name ++ (codes ": " ++ details)))

-- `(int)id`
abbrev pub to_int : ℤ → ℤ
to_int (pos a) = signed32 (a % 2 ^ 32)
to_int (negsuc a) = signed32 (2 ^ 32 - suc (a % 2 ^ 32))

-- What Lua's lua_pushfstring makes of `%d`, and of `%I` or `%f` for a number of bytes.
pub record Formats : Type 0 where
  pub decimal : ℤ → Text
  pub bytes : ℕ → Text

-- The calls that raise an error, one for each mtint_ERROR_ function.
pub data Raise : Type 0 where
  error_object_exists : (object_string : Text) → Raise
  error_object_closed : (object_string : Text) → Raise
  error_unknown_object_interruptible_id : (id : ℤ) → Raise
  error_interrupted : Raise
  error_not_supported : (details : Text) → Raise
  error_out_of_memory : Raise
  error_out_of_memory_bytes : (bytes : ℕ) → Raise

-- The message that lua_error raises.
unfoldable pub raise_message : Formats → Raise → Text
unfolding push_error_message
raise_message f (error_object_exists s) = push_error_message object_exists (some s)
raise_message f (error_object_closed s) = push_error_message object_closed (some s)
raise_message f (error_unknown_object_interruptible_id id) =
    push_error_message unknown_object (some (codes "interruptible id " ++ f.decimal (to_int id)))
raise_message f error_interrupted = push_error_message interrupted none
raise_message f (error_not_supported s) = push_error_message not_supported (some s)
raise_message f error_out_of_memory = push_error_message out_of_memory none
raise_message f (error_out_of_memory_bytes n) =
    push_error_message out_of_memory
      (some (codes "failed to allocate " ++ (f.bytes n ++ codes " bytes")))

-- The field of `mtint.error` and its value.
unfoldable pub publish_error : ErrorName → Text × Text
publish_error name = (error_name name, error_class_name ++ (codes "." ++ error_name name))

unfoldable pub error_init_module : List (Text × Text)
unfolding publish_error
error_init_module =
    publish_error not_supported
    ∷ publish_error object_exists
    ∷ publish_error object_closed
    ∷ publish_error unknown_object
    ∷ publish_error interrupted
    ∷ publish_error out_of_memory
    ∷ []
