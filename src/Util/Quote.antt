-- ===== src/Util/Quote.antt =====
-- mtint_util_quote_lstring and mtint_util_quote_string of src/util.c.
use lua_mtint.Base.{
  ◌+◌, ◌-◌, ◌*◌, ◌^◌, ◌<◌, ltb, leb, length, Bool, true, false, not, ◌&&◌, ◌||◌, ℕ, ◌≡◌, refl,
  arith, Option, none, some, List, [], ◌∷◌, ◌++◌, ◌==◌, if◌then◌else◌, Bool-cases, inl, inr,
  eq_of_==, ◌∉◌, sym, ap, ◌∙◌,
}
use mathlib.Core.Option

abbrev pub quote_mark : ℕ
quote_mark = b'"'

abbrev pub backslash : ℕ
backslash = 0x5c

abbrev zero_digit : ℕ
zero_digit = b'0'

-- One turn of the loop.
pub escape : ℕ → List ℕ
escape c =
    if c == 0
    then backslash ∷ zero_digit ∷ []
    else if c == quote_mark
    then backslash ∷ quote_mark ∷ []
    else if c == backslash
    then backslash ∷ backslash ∷ []
    else c ∷ []

pub escape_all : List ℕ → List ℕ
unfolding escape
escape_all [] = []
escape_all (c ∷ s) = escape c ++ escape_all s

-- `none` stands for NULL. The bytes of `s` are those at s[0] to s[len - 1]. The result is `none` where C
-- leaves it undefined: the index is an int, which overflows if there are 2 ^ 31 bytes or more.
unfoldable pub quote_lstring : Option (List ℕ) → Option (List ℕ)
unfolding escape_all
quote_lstring none = some (b'n' ∷ b'i' ∷ b'l' ∷ [])
quote_lstring (some s) =
    if ltb (length s) (2 ^ 31) then some (quote_mark ∷ (escape_all s ++ quote_mark ∷ [])) else none

-- `strlen`: the bytes before the first that is 0.
pub before_nul : List ℕ → List ℕ
before_nul [] = []
before_nul (c ∷ s) = if c == 0 then [] else c ∷ before_nul s

unfoldable pub quote_string : Option (List ℕ) → Option (List ℕ)
unfolding before_nul quote_lstring
quote_string s = quote_lstring (Option.map before_nul s)

abbrev pub is_digit : ℕ → Bool
is_digit c = leb zero_digit c && leb c b'9'

-- Where Lua is in a string between quotation marks: at a byte, behind a backslash, or behind one, two or
-- three decimal digits of an escape, with their value.
pub data Reading : Type 0 where
  at_byte : Reading
  at_escape : Reading
  at_decimal : (digits value : ℕ) → Reading

-- What Lua reads up to the closing mark, which must be the last byte. A line must not end in the
-- string, and of the escapes only those of decimal digits, marks and backslashes are read.
pub unescape : Reading → List ℕ → Option (List ℕ)
unescape st [] = none
unescape at_byte (c ∷ r) =
    let rest = unescape at_byte r in
    let escape' = unescape at_escape r in
    if c == quote_mark
    then (if length r == 0 then some [] else none)
    else if c == backslash
    then escape'
    else if c == 10 || c == 13
    then none
    else Option.map (λ s. c ∷ s) rest
unescape at_escape (c ∷ r) =
    let rest = unescape at_byte r in
    let decimal = unescape (at_decimal 1 (c - zero_digit)) r in
    if is_digit c
    then decimal
    else if c == quote_mark || c == backslash
    then Option.map (λ s. c ∷ s) rest
    else none
unescape (at_decimal n v) (c ∷ r) =
    let rest = unescape at_byte r in
    let escape' = unescape at_escape r in
    let decimal = unescape (at_decimal (n + 1) (v * 10 + (c - zero_digit))) r in
    if is_digit c && ltb n 3
    then decimal
    else if ltb 255 v
    then none
    else Option.map (λ s. v ∷ s)
        (if c == quote_mark
          then (if length r == 0 then some [] else none)
          else if c == backslash
          then escape'
          else if c == 10 || c == 13
          then none
          else Option.map (λ s. c ∷ s) rest)

-- No end of a line, and no digit behind a NUL.
unfoldable pub is_readable : List ℕ → Bool
is_readable [] = true
is_readable (c ∷ []) = not (c == 10 || c == 13)
is_readable (c ∷ d ∷ s) =
    not (c == 10 || c == 13) && not (c == 0 && is_digit d) && is_readable (d ∷ s)

-- The first byte behind an escape that is no digit ends it.
decimal-end :
    (xs : List ℕ) (d : ℕ) (r : List ℕ)
    → xs ≡ d ∷ r
    → is_digit d ≡ false
    → unescape (at_decimal 1 0) xs ≡ Option.map (λ s. 0 ∷ s) (unescape at_byte xs)
unfolding unescape
decimal-end xs d r begins e = rw begins (rw e refl)

-- What follows a NUL in quoted text begins with a byte that is no digit.
escape_all-first :
    (s : List ℕ)
    → is_readable (0 ∷ s) ≡ true
    → (d : ℕ) × (r : List ℕ) × (escape_all s ++ quote_mark ∷ [] ≡ d ∷ r) × (is_digit d ≡ false)
unfolding escape_all escape is_readable
escape_all-first [] h = (quote_mark, [], refl, refl)
escape_all-first (c ∷ s) h = elim (Bool-cases (c == 0)) [
  | inl e ↦ (backslash, zero_digit ∷ (escape_all s ++ quote_mark ∷ []), rw e refl, refl)
  | inr not_nul ↦ elim (Bool-cases (c == quote_mark)) [
    | inl e ↦
        (backslash, quote_mark ∷ (escape_all s ++ quote_mark ∷ []), rw (not_nul, e) refl, refl)
    | inr not_mark ↦ elim (Bool-cases (c == backslash)) [
      | inl e ↦ (
        backslash,
        backslash ∷ (escape_all s ++ quote_mark ∷ []),
        rw (not_nul, not_mark, e) refl,
        refl,
      )
      | inr not_slash ↦ (
        c,
        escape_all s ++ quote_mark ∷ [],
        rw (not_nul, not_mark, not_slash) refl,
        ground (arith, h),
      )
    ]
  ]
]

is_readable-tail : (c : ℕ) (s : List ℕ) → is_readable (c ∷ s) ≡ true → is_readable s ≡ true
unfolding is_readable
is_readable-tail c [] h = refl
is_readable-tail c (d ∷ s) h = ground (arith, h)

is_readable-line : (c : ℕ) (s : List ℕ) → is_readable (c ∷ s) ≡ true → (c == 10 || c == 13) ≡ false
unfolding is_readable
is_readable-line c [] h = ground (arith, h)
is_readable-line c (d ∷ s) h = ground (arith, h)

unescape-escape_all :
    (s : List ℕ)
    → is_readable s ≡ true
    → unescape at_byte (escape_all s ++ quote_mark ∷ []) ≡ some s
unfolding escape_all escape unescape
unescape-escape_all [] h = refl
unescape-escape_all (c ∷ s) h =
    let rest = unescape-escape_all s (is_readable-tail c s h) in
    elim (Bool-cases (c == 0)) [
      | inl e ↦
          let nul : c ≡ 0 = eq_of_== c 0 e in
          let (d, r, begins, plain) =
            escape_all-first s (ap (λ x. is_readable (x ∷ s)) (sym nul) ∙ h) in
          rw nul (decimal-end _ d r begins plain ∙ ap (Option.map (λ x. 0 ∷ x)) rest)
      | inr not_nul ↦ elim (Bool-cases (c == quote_mark)) [
        | inl e ↦ rw (not_nul, e) (rw (eq_of_== c quote_mark e, rest) refl)
        | inr not_mark ↦ elim (Bool-cases (c == backslash)) [
          | inl e ↦ rw (not_nul, not_mark, e) (rw (eq_of_== c backslash e, rest) refl)
          | inr not_slash ↦
              rw (not_nul, not_mark, not_slash)
                (rw (not_mark, not_slash, is_readable-line c s h, rest) refl)
        ]
      ]
    ]

-- Of fewer than 2 ^ 31 bytes, of which none ends a line and no NUL has a digit behind it, Lua reads
-- the quotation as the same bytes.
pub unescape-quote_lstring :
    (s : List ℕ)
    → length s < 2 ^ 31
    → is_readable s ≡ true
    → (r : List ℕ) × (quote_lstring (some s) ≡ some (quote_mark ∷ r))
      × (unescape at_byte r ≡ some s)
unfolding quote_lstring
unescape-quote_lstring s few h =
    (escape_all s ++ quote_mark ∷ [], ground (arith, few), unescape-escape_all s h)

before_nul-append : (s t : List ℕ) → 0 ∉ s → before_nul (s ++ 0 ∷ t) ≡ s
unfolding before_nul
before_nul-append [] t h = refl
before_nul-append (c ∷ s) t h = ground (arith, before_nul-append s t)

-- Of bytes that do not contain a NUL, followed by a NUL and anything, mtint_util_quote_string quotes
-- those before the NUL.
pub quote_string-before_nul :
    (s t : List ℕ) → 0 ∉ s → quote_string (some (s ++ 0 ∷ t)) ≡ quote_lstring (some s)
unfolding quote_string
quote_string-before_nul s t h = rw (before_nul-append s t h) refl
