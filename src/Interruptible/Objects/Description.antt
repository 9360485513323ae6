-- ===== src/Interruptible/Objects/Description.antt =====
-- The text that Lua's tostring gives for user data: toLuaString, udataToLuaString,
-- mtint_interruptible_tostring and MtInterruptible_toString.
use lua_mtint.Base.{
  ◌≡◌, ◌≢◌, ◌⊎◌, ◌↔◌, inl, inr, refl, sym, ◌∙◌, ap, arith, true, false, Option, none, some, ◌++◌,
  ◌==◌, has, has-append, if◌then◌else◌,
}
use lua_mtint.Errors.{Text, codes, Formats, to_int}
use lua_mtint.Interruptible.Store.{Ptr, null, MtInterruptible, load}
use lua_mtint.Interruptible.Guards.{interruptible_class_name}
use lua_mtint.Interruptible.Objects.{
  World, IntrUserData, Outcome, returns, on_store, then_do, check_udata,
}

abbrev pub invalid_text : Text
invalid_text = interruptible_class_name ++ codes ": invalid"

-- What stands before the number of the object.
abbrev pub label : (pointer : Ptr → Text) → (udata : Option Ptr) → Text
label pointer (some u) = interruptible_class_name ++ (codes ": " ++ (pointer u ++ codes " (id="))
label pointer none = interruptible_class_name ++ codes "(id="

-- `pointer` is what lua_pushfstring makes of `%p`.
unfoldable pub to_lua_string :
    Formats → (pointer : Ptr → Text) → (udata : Option Ptr) → (intrp : Ptr) → World → Outcome Text
unfolding load
to_lua_string f pointer udata intrp w =
    if intrp == null
    then returns invalid_text w
    else on_store w (load intrp w.store)
        (λ o w1. returns (label pointer udata ++ (f.decimal (to_int o.id) ++ codes ")")) w1)

unfoldable pub mtint_interruptible_tostring :
    Formats → (pointer : Ptr → Text) → (intrp : Ptr) → World → Outcome Text
unfolding to_lua_string
mtint_interruptible_tostring f pointer intrp w = to_lua_string f pointer none intrp w

-- udataToLuaString, of user data that luaL_checkudata found
unfoldable pub mt_interruptible_to_string :
    Formats → (pointer : Ptr → Text) → (u : Ptr) → World → Outcome Text
unfolding check_udata to_lua_string
mt_interruptible_to_string f pointer u w =
    then_do (check_udata u w) (λ d w0. to_lua_string f pointer (some u) d.interruptible w0)

-- A text with a bracket in it is not the one for user data that refer to nothing.
has_bracket-ne : (t : Text) → has b'(' t ≡ true → t ≢ invalid_text
has_bracket-ne t h e =
    let none' : has b'(' invalid_text ≡ false = refl in
    let found : has b'(' invalid_text ≡ true = ap (has b'(') (sym e) ∙ h in cc

description-bracket :
    (f : Formats) (pointer : Ptr → Text) (u : Ptr) (o : MtInterruptible)
    → has b'(' (label pointer (some u) ++ (f.decimal (to_int o.id) ++ codes ")")) ≡ true
description-bracket f pointer u o = simp has-append (ground arith)

-- MtInterruptible_toString of user data that refer to nothing, or to an object that has not been
-- freed, returns a text without a fault and changes nothing; the text is that for an invalid object
-- exactly if the user data refer to nothing.
pub mt_interruptible_to_string_lem :
    (f : Formats) (pointer : Ptr → Text) (u : Ptr) (w : World) (d : IntrUserData)
    → w.udata u ≡ some d
    → (d.interruptible ≡ null)
      ⊎ ((o : MtInterruptible) × (w.store.object d.interruptible ≡ some o)
          × (d.interruptible ≢ null))
    → (t : Text) × (mt_interruptible_to_string f pointer u w ≡ returns t w)
      × ((t ≡ invalid_text) ↔ (d.interruptible ≡ null))
unfolding mt_interruptible_to_string
mt_interruptible_to_string_lem f pointer u w d at (inl none') =
    (invalid_text, ground (arith, at), (λ e. none', λ e. refl))
mt_interruptible_to_string_lem f pointer u w d at (inr (o, live, some')) = (
  label pointer (some u) ++ (f.decimal (to_int o.id) ++ codes ")"),
  ground (arith, at, live),
  (λ e. absurd (has_bracket-ne _ (description-bracket f pointer u o) e), λ e. absurd (some' e)),
)
