-- ===== src/Adapters/Texts.antt =====
-- The methods of `str` that the adapters use beside those of the prelude, and their two helpers
-- `_safe_key` and `_escape`.
use simulation_ai.Prelude.{
  ℕ, zero, suc, String, Bool, ◌||◌, Option, none, some, List, [], ◌∷◌, nat_eq, if◌then◌else◌, ◌≡◌,
  refl,
}
use simulation_ai.Prelude.Texts.{take_str, replace_char, startswith, split}
use Prim.Native.Char.{code}

-- the text before the first separator, and the text after it
unfoldable pub cut : ℕ → String → Option (String × String)
cut sep String.[] = none
cut sep (String.◌∷◌ c s) =
    let rest = cut sep s in
    if nat_eq (code c) sep
    then some ("", s)
    else elim rest [ none ↦ none | some (a, b) ↦ some (String.◌∷◌ c a, b) ]

-- `s.partition(sep)[2]`
unfoldable pub after_first : ℕ → String → String
unfolding cut
after_first sep s = elim (cut sep s) [ none ↦ "" | some (a, b) ↦ b ]

-- `s.split(sep, n)`
unfoldable pub split_at_most : ℕ → ℕ → String → List String
unfolding cut
split_at_most zero sep s = s ∷ []
split_at_most (suc n) sep s = elim (cut sep s) [
  | none ↦ s ∷ []
  | some (a, b) ↦ a ∷ split_at_most n sep b
]

last_of : String → List String → String
last_of s [] = s
last_of s (t ∷ l) = last_of t l

-- `s.rsplit(sep, 1)[-1]` and `s.split(sep)[-1]`: the text after the last separator
unfoldable pub after_last : ℕ → String → String
unfolding last_of split
after_last sep s = last_of s (split sep s)

-- `p in s`
unfoldable pub is_substring : String → String → Bool
unfolding startswith
is_substring p String.[] = startswith "" p
is_substring p (String.◌∷◌ c s) =
    let rest = is_substring p s in startswith (String.◌∷◌ c s) p || rest

unfoldable pub safe_key : String → String
unfolding take_str replace_char
safe_key value =
    take_str 120 (replace_char b'.' "_" (replace_char b'~' "_" (replace_char b'/' "_" value)))

unfoldable pub escape : String → String
unfolding replace_char
escape value = replace_char b'/' "~1" (replace_char b'~' "~0" value)

texts_run :
    (split_at_most 2 b':' "spawn:a:b:c" ≡ "spawn" ∷ "a" ∷ "b:c" ∷ [])
    × (after_first b':' "goal:x:y" ≡ "x:y")
    × (after_last b':' "privacy:cloud:on" ≡ "on")
unfolding split_at_most after_first after_last cut split last_of
texts_run = (refl, refl, refl)
