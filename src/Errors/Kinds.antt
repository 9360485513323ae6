-- ===== src/Errors/Kinds.antt =====
-- How a script tells the errors of src/error.c apart by the table `mtint.error`.
use lua_mtint.Base.{
  ◌≡◌, refl, Bool, true, false, ◌&&◌, Option, none, some, List, [], ◌∷◌, ◌==◌, if◌then◌else◌,
}
use lua_mtint.Errors.{
  Text, error_name, ErrorName, not_supported, object_exists, object_closed, unknown_object,
  interrupted, out_of_memory, Formats, Raise, error_object_exists, error_object_closed,
  error_unknown_object_interruptible_id, error_interrupted, error_not_supported,
  error_out_of_memory, error_out_of_memory_bytes, push_error_message, raise_message, publish_error,
  error_init_module,
}

-- `t` begins with `pre`.
pub starts_with : Text → Text → Bool
starts_with [] t = true
starts_with (c ∷ pre) [] = false
starts_with (c ∷ pre) (d ∷ t) = if c == d then starts_with pre t else false

-- The constant that each function of src/error.h raises.
abbrev pub name_of : Raise → ErrorName
name_of (error_object_exists s) = object_exists
name_of (error_object_closed s) = object_closed
name_of (error_unknown_object_interruptible_id id) = unknown_object
name_of error_interrupted = interrupted
name_of (error_not_supported s) = not_supported
name_of error_out_of_memory = out_of_memory
name_of (error_out_of_memory_bytes n) = out_of_memory

-- The first value in a table under a key.
pub field : Text → List (Text × Text) → Option Text
field k [] = none
field k ((j, v) ∷ t) = if starts_with j k && starts_with k j then some v else field k t

-- Whether two constants are the same.
pub same_error : ErrorName → ErrorName → Bool
same_error not_supported not_supported = true
same_error object_exists object_exists = true
same_error object_closed object_closed = true
same_error unknown_object unknown_object = true
same_error interrupted interrupted = true
same_error out_of_memory out_of_memory = true
same_error _ _ = false

starts_with-bare :
    (a b : ErrorName) → starts_with (publish_error a).1 (push_error_message b none) ≡ same_error a b
unfolding starts_with publish_error push_error_message same_error
starts_with-bare not_supported not_supported = refl
starts_with-bare not_supported _ = refl
starts_with-bare object_exists not_supported = refl
starts_with-bare object_exists _ = refl
starts_with-bare object_closed not_supported = refl
starts_with-bare object_closed _ = refl
starts_with-bare unknown_object not_supported = refl
starts_with-bare unknown_object _ = refl
starts_with-bare interrupted not_supported = refl
starts_with-bare interrupted _ = refl
starts_with-bare out_of_memory not_supported = refl
starts_with-bare out_of_memory _ = refl

starts_with-detailed :
    (a b : ErrorName) (details : Text)
    → starts_with (publish_error a).1 (push_error_message b (some details)) ≡ same_error a b
unfolding starts_with publish_error push_error_message same_error
starts_with-detailed not_supported not_supported details = refl
starts_with-detailed not_supported _ details = refl
starts_with-detailed object_exists not_supported details = refl
starts_with-detailed object_exists _ details = refl
starts_with-detailed object_closed not_supported details = refl
starts_with-detailed object_closed _ details = refl
starts_with-detailed unknown_object not_supported details = refl
starts_with-detailed unknown_object _ details = refl
starts_with-detailed interrupted not_supported details = refl
starts_with-detailed interrupted _ details = refl
starts_with-detailed out_of_memory not_supported details = refl
starts_with-detailed out_of_memory _ details = refl

-- Whichever way numbers are printed, a published error name is a prefix of a raised message exactly
-- if it is the name of that error.
pub starts_with-raise_message :
    (f : Formats) (a : ErrorName) (r : Raise)
    → starts_with (publish_error a).1 (raise_message f r) ≡ same_error a (name_of r)
unfolding raise_message
starts_with-raise_message f a (error_object_exists s) = starts_with-detailed a object_exists s
starts_with-raise_message f a (error_object_closed s) = starts_with-detailed a object_closed s
starts_with-raise_message f a (error_unknown_object_interruptible_id id) =
    starts_with-detailed a unknown_object _
starts_with-raise_message f a error_interrupted = starts_with-bare a interrupted
starts_with-raise_message f a (error_not_supported s) = starts_with-detailed a not_supported s
starts_with-raise_message f a error_out_of_memory = starts_with-bare a out_of_memory
starts_with-raise_message f a (error_out_of_memory_bytes n) = starts_with-detailed a out_of_memory _

-- The table `mtint.error` has for each error name a field of that name, with the published value.
pub field-error_init_module :
    (a : ErrorName) → field (error_name a) error_init_module ≡ some (publish_error a).1
unfolding field starts_with error_init_module publish_error
field-error_init_module not_supported = refl
field-error_init_module _ = refl
