-- ===== src/Proxy/Values.antt =====
-- What proxy.py does with values that came in as JSON: truth, `<` against a bound, `+`, and sets of
-- them. The sum of
-- two numbers of which one is a float is an argument, since it is rounded.
use propagul.Prelude.{
  ℕ, ◌+◌, ◌-◌, ◌*◌, ◌^◌, List, [], ◌∷◌, negsuc, ℤ, dec_text, Bool, true, false, ◌&&◌, ◌||◌, Option,
  none, some, ◌++◌, if◌then◌else◌, ite, ltb, Text, length, or_else, pos, ltb_ℤ, dec_int, ◌+ℤ◌,
}
use propagul.Prelude.Dict.{Dict, lookup}
use propagul.Json.{
  Json, null, bool, int, float, str, arr, obj, nil, cons, end, field, to_list, list, as_int,
}

abbrev pub FloatAdd : Type 0
FloatAdd = Json → Json → Json

-- `d.get(name, default)`
abbrev pub get_or : Text → Json → Dict Json → Json
get_or name otherwise d = or_else (lookup name d) otherwise

-- `bool(j)`
unfoldable pub truthy : Json → Bool
truthy null = false
truthy (bool b) = b
truthy (int z) = ite (dec_int z (pos 0)) false true
truthy (float z k) = ite (dec_int z (pos 0)) false true
truthy (str s) = ltb 0 (length s)
truthy (arr nil) = false
truthy (arr (cons j js)) = true
truthy (obj end) = false
truthy (obj (field k j fs)) = true

-- `j < n`, none where it raises TypeError
unfoldable pub below : Json → ℕ → Option Bool
below (float z k) n = some (ltb_ℤ z (pos (n * 2 ^ k)))
below j n = elim (as_int j) [ none ↦ none | some z ↦ some (ltb_ℤ z (pos n)) ]

abbrev pub is_float : Json → Bool
is_float (float z k) = true
is_float _ = false

abbrev pub is_number : Json → Bool
is_number null = false
is_number (bool b) = true
is_number (int z) = true
is_number (float z k) = true
is_number (str s) = false
is_number (arr js) = false
is_number (obj fs) = false

unfoldable pub add_numbers : FloatAdd → Json → Json → Option Json
add_numbers float_add a b =
    if is_number a && is_number b
    then (if is_float a || is_float b
        then some (float_add a b)
        else some (int (or_else (as_int a) (pos 0) +ℤ or_else (as_int b) (pos 0))))
    else none

-- `a + b`, none where it raises TypeError
unfoldable pub add_values : FloatAdd → Json → Json → Option Json
add_values float_add (str s) (str t) = some (str (s ++ t))
add_values float_add (arr js) (arr ks) = some (list (to_list js ++ to_list ks))
add_values float_add a b = add_numbers float_add a b

-- `hash(j)` does not raise TypeError
unfoldable pub is_hashable : Json → Bool
is_hashable null = true
is_hashable (bool b) = true
is_hashable (int z) = true
is_hashable (float z k) = true
is_hashable (str s) = true
is_hashable (arr js) = false
is_hashable (obj fs) = false

-- `z * n`, for a positive `n`
unfoldable pub scaled : ℤ → ℕ → ℤ
scaled (pos m) n = pos (m * n)
scaled (negsuc m) n = negsuc ((m + 1) * n - 1)

-- a number as m / 2^k; `True` is 1
unfoldable pub fraction_of : Json → Option (ℤ × ℕ)
fraction_of (float z k) = some (z, k)
fraction_of j = elim (as_int j) [ none ↦ none | some z ↦ some (z, 0) ]

unfoldable pub same_fraction : Option (ℤ × ℕ) → Option (ℤ × ℕ) → Bool
same_fraction none o = false
same_fraction (some f) none = false
same_fraction (some (z, k)) (some (y, l)) =
    ite (dec_int (scaled z (2 ^ l)) (scaled y (2 ^ k))) true false

-- `a == b`, of hashable values
unfoldable pub same_key : Json → Json → Bool
same_key (str s) (str t) = ite (dec_text s t) true false
same_key null null = true
same_key a b = same_fraction (fraction_of a) (fraction_of b)

-- `j in keys`, of a set, for a hashable `j`
unfoldable pub has_key : Json → List Json → Bool
has_key j [] = false
has_key j (k ∷ keys) = same_key k j || has_key j keys

-- `keys.add(j)`
unfoldable pub add_key : Json → List Json → List Json
add_key j keys = if has_key j keys then keys else j ∷ keys
