-- ===== src/Agent/Numbers.antt =====
-- What agent.py uses of Python's texts and numbers: `int(text)` and the pattern of a duration. The
-- decimal digits of Unicode are an argument, the value of a code point.
use propagul.Prelude.{
  ℕ, ◌+◌, ◌*◌, ◌-◌, Bool, true, false, ◌&&◌, ◌||◌, not, Option, none, some, [], ◌∷◌, if◌then◌else◌,
  ◌==◌, leb, Text, ℤ, pos, negsuc,
}
use propagul.Config.Tables.{is_space}

abbrev pub Decimal : Type 0
Decimal = ℕ → Option ℕ

-- What `int` takes for a space: what `strip` does, but for the separators of ASCII, from U+001C to
-- U+001F.
unfoldable pub int_space : ℕ → Bool
int_space c = is_space c && not (leb 28 c && leb c 31)

unfoldable pub int_blank : Text → Bool
int_blank [] = true
int_blank (c ∷ s) = let rest = int_blank s in int_space c && rest

-- the text without the spaces that it starts with
unfoldable pub skip_space : Text → Text
skip_space [] = []
skip_space (c ∷ s) = let rest = skip_space s in if int_space c then rest else c ∷ s

-- Digits, with single underscores between; `fresh` where a digit has to follow.
unfoldable pub read_digits : Decimal → ℕ → Bool → Text → Option ℕ
read_digits decimal n fresh [] = if fresh then none else some n
read_digits decimal n fresh (c ∷ s) = elim (decimal c) [
  | some d ↦ read_digits decimal (n * 10 + d) false s
  | none ↦
      let after_underscore = read_digits decimal n true s in
      if c == b'_'
      then (if fresh then none else after_underscore)
      else if fresh || not (int_blank (c ∷ s))
      then none
      else some n
]

abbrev pub negate : ℕ → ℤ
negate n = if n == 0 then pos 0 else negsuc (n - 1)

abbrev pub with_sign : Bool → Option ℕ → Option ℤ
with_sign minus none = none
with_sign true (some n) = some (negate n)
with_sign false (some n) = some (pos n)

unfoldable pub read_signed : Decimal → Text → Option ℤ
read_signed decimal [] = none
read_signed decimal (c ∷ s) =
    if c == b'-'
    then with_sign true (read_digits decimal 0 true s)
    else if c == b'+'
    then with_sign false (read_digits decimal 0 true s)
    else with_sign false (read_digits decimal 0 true (c ∷ s))

-- `int(text)`, none where it raises ValueError
unfoldable pub read_int : Decimal → Text → Option ℤ
read_int decimal s = read_signed decimal (skip_space s)

abbrev pub is_digit : Decimal → ℕ → Bool
is_digit decimal c = elim (decimal c) [ none ↦ false | some _ ↦ true ]

-- `$`: the end, or a newline before it
unfoldable pub at_end : Text → Bool
at_end [] = true
at_end (c ∷ []) = c == 10
at_end (c ∷ d ∷ s) = false

-- `[smh]?$`
unfoldable pub match_unit : Text → Bool
match_unit [] = true
match_unit (c ∷ s) = if c == b's' || (c == b'm' || c == b'h') then at_end s else at_end (c ∷ s)

-- `\d*[smh]?$`
unfoldable pub match_digits : Decimal → Text → Bool
match_digits decimal [] = true
match_digits decimal (c ∷ s) =
    let rest = match_digits decimal s in if is_digit decimal c then rest else match_unit (c ∷ s)

-- `\d+[smh]?$`
unfoldable pub match_number : Decimal → Text → Bool
match_number decimal [] = false
match_number decimal (c ∷ s) = is_digit decimal c && match_digits decimal s

-- `re.match(r'^-?\d+[smh]?$', text)`
unfoldable pub is_duration : Decimal → Text → Bool
is_duration decimal [] = false
is_duration decimal (c ∷ s) =
    if c == b'-' then match_number decimal s else match_number decimal (c ∷ s)
