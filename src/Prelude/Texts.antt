-- ===== src/Prelude/Texts.antt =====
-- Python's `str` methods that the program calls, on the native texts.
use Prim.Native.Nat.{ℕ, zero, suc, ◌+◌, ◌-◌, ◌*◌, ◌≤◌}
use Prim.Native.Char.{Char, code}
use Prim.Native.String.{String, [], ◌∷◌, ◌++◌}
use mathlib.Core.Path.{◌≡◌, refl}
use mathlib.Core.Bool.{Bool, true, false, not, ◌&&◌, ◌||◌}
use mathlib.Core.Option.{Option, none, some}
use mathlib.Core.List.{List, [], ◌∷◌}
use native.Mathlib.Omega.{arith}
use simulation_ai.Prelude.Tests.{leb, nat_eq, if◌then◌else◌}
use simulation_ai.Prelude.Int.{ℤ, pos, negsuc, sub_ℕ}

-- `a + b`
abbrev pub str_append : String → String → String
str_append a b = a ++ b

-- `len(s)`: the number of characters
unfoldable pub str_len : String → ℕ
str_len [] = 0
str_len (c ∷ s) = suc (str_len s)

-- `s[:n]`
unfoldable pub take_str : ℕ → String → String
take_str zero s = []
take_str (suc n) [] = []
take_str (suc n) (c ∷ s) = c ∷ take_str n s

abbrev pub is_empty : String → Bool
is_empty [] = true
is_empty (c ∷ s) = false

-- `s.startswith(p)`
unfoldable pub startswith : String → String → Bool
startswith s [] = true
startswith [] (d ∷ p) = false
startswith (c ∷ s) (d ∷ p) = nat_eq (code c) (code d) && startswith s p

-- `s.removeprefix(p)` where `s` starts with `p`
unfoldable pub after_prefix : String → String → String
after_prefix s [] = s
after_prefix [] (d ∷ p) = []
after_prefix (c ∷ s) (d ∷ p) = after_prefix s p

-- `s.lstrip(chars)`, `s.rstrip(chars)`, `s.strip(chars)`, the characters given by a test
module _ (drops : Char → Bool) where
  unfoldable pub lstrip : String → String
  lstrip [] = []
  lstrip (c ∷ s) = let rest = lstrip s in if drops c then rest else c ∷ s

  unfoldable pub rstrip : String → String
  rstrip [] = []
  rstrip (c ∷ s) = let rest = rstrip s in if drops c && is_empty rest then [] else c ∷ rest

  unfoldable pub strip : String → String
  unfolding lstrip rstrip
  strip s = rstrip (lstrip s)

-- The white space that `s.strip()` and `int` remove (str.isspace).
unfoldable pub is_space : Char → Bool
is_space c =
    (leb 9 (code c) && leb (code c) 13)
    || (leb 28 (code c) && leb (code c) 32)
    || nat_eq (code c) 133
    || nat_eq (code c) 160
    || nat_eq (code c) 5760
    || (leb 8192 (code c) && leb (code c) 8202)
    || nat_eq (code c) 8232
    || nat_eq (code c) 8233
    || nat_eq (code c) 8239
    || nat_eq (code c) 8287
    || nat_eq (code c) 12288

-- `s.split(sep)` for a separator of one character: never an empty list
split_from : ℕ → String → String → List String
split_from sep cur [] = cur ∷ []
split_from sep cur (c ∷ s) = elim (nat_eq (code c) sep) [
  | true ↦ cur ∷ split_from sep [] s
  | false ↦ split_from sep (cur ++ c ∷ []) s
]

unfoldable pub split : ℕ → String → List String
unfolding split_from
split sep s = split_from sep [] s

-- `s.replace(old, new)` for an `old` of the two characters `a` and `b`
unfoldable pub replace_pair : ℕ → ℕ → String → String → String
replace_pair a b new [] = []
replace_pair a b new (c ∷ []) = c ∷ []
replace_pair a b new (c ∷ d ∷ s) = elim (nat_eq (code c) a && nat_eq (code d) b) [
  | true ↦ new ++ replace_pair a b new s
  | false ↦ c ∷ replace_pair a b new (d ∷ s)
]

-- `s.replace(old, new)` for an `old` of one character
unfoldable pub replace_char : ℕ → String → String → String
replace_char a new [] = []
replace_char a new (c ∷ s) =
    let rest = replace_char a new s in if nat_eq (code c) a then new ++ rest else c ∷ rest

-- The digits of `int`: one underscore may stand between two of them. The flag says that a digit
-- has to follow. Digits beyond ASCII, which Python also reads, are not numbers here.
digits : ℕ → Bool → String → Option ℕ
digits acc true [] = none
digits acc false [] = some acc
digits acc need (c ∷ s) =
    let next = digits (acc * 10 + (code c - 48)) false s in
    let gap = digits acc true s in
    if leb 48 (code c) && leb (code c) 57
    then next
    else if nat_eq (code c) 95 && not need
    then gap
    else none

minus : ℕ → ℤ
minus n = sub_ℕ 0 n

signed : String → Option ℤ
unfolding digits minus
signed [] = none
signed (c ∷ s) =
    if nat_eq (code c) 45
    then elim (digits 0 true s) [ none ↦ none | some n ↦ some (minus n) ]
    else if nat_eq (code c) 43
    then elim (digits 0 true s) [ none ↦ none | some n ↦ some (pos n) ]
    else elim (digits 0 true (c ∷ s)) [ none ↦ none | some n ↦ some (pos n) ]

-- `int(s)`; `none` is the ValueError.
unfoldable pub py_int : String → Option ℤ
unfolding signed strip is_space
py_int s = signed (strip is_space s)

py_int_runs : (py_int " -1_2 " ≡ some (negsuc 11)) × (py_int "1__2" ≡ none) × (py_int "" ≡ none)
unfolding py_int
py_int_runs = (refl, refl, refl)

split_runs : split 47 "a//b" ≡ "a" ∷ "" ∷ "b" ∷ []
unfolding split
split_runs = refl

replace_runs : replace_pair 126 49 "/" "a~1b~01" ≡ "a/b~01"
unfolding replace_pair
replace_runs = refl

pub str_len-take_str : (n : ℕ) (s : String) → str_len (take_str n s) ≤ n
unfolding str_len take_str
str_len-take_str zero s = omega arith
str_len-take_str (suc n) [] = omega arith
str_len-take_str (suc n) (c ∷ s) = omega (arith, str_len-take_str n s)
