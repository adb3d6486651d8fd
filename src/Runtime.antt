-- ===== src/Runtime.antt =====
-- What the core takes from its runtime and this model does not compute: the SHA-256 of a text, the
-- clock, the Unicode tables and the `repr` of containers. Nothing is assumed of them here.
use simulation_ai.Prelude.{
  ℕ, zero, suc, ◌/◌, ◌%◌, String, Bool, true, false, ltb, if◌then◌else◌, refl, ◌≡◌,
}
use simulation_ai.Prelude.Int.{pos, negsuc}
use simulation_ai.Prelude.Texts.{str_append, take_str}
use simulation_ai.Json.{Value, null, bool, int, str}
use simulation_ai.Json.Sort.{sort_keys}
use Prim.Native.Char.{Char}

pub record Runtime : Type 0 where
  -- the digest, in hexadecimal, of the compact JSON text of a value whose keys are sorted
  pub sha256 : Value → String
  -- the n-th reading of the clock
  pub utc_now : ℕ → String
  -- `str(v)` of a list, a dict or a float
  pub repr : Value → String
  -- `s.title()`
  pub title : String → String
  -- `s.lower()` and `c.isalnum()`
  pub lower : String → String
  pub is_alnum : Char → Bool

-- `digest` of model.py. `canonical_json` sorts the keys of every dict, so the text depends on
-- the sorted value alone.
unfoldable pub digest : Runtime → Value → String
digest rt v = rt.sha256 (sort_keys v)

-- `digest(v)[:n]`
abbrev pub short_digest : Runtime → ℕ → Value → String
short_digest rt n v = take_str n (digest rt v)

digit : ℕ → String
digit zero = "0"
digit (suc zero) = "1"
digit (suc (suc zero)) = "2"
digit (suc (suc (suc zero))) = "3"
digit (suc (suc (suc (suc zero)))) = "4"
digit (suc (suc (suc (suc (suc zero))))) = "5"
digit (suc (suc (suc (suc (suc (suc zero)))))) = "6"
digit (suc (suc (suc (suc (suc (suc (suc zero))))))) = "7"
digit (suc (suc (suc (suc (suc (suc (suc (suc zero)))))))) = "8"
digit _ = "9"

-- the rounds left are more than the digits: `n` falls by its last digit each time
show_digits : ℕ → ℕ → String
unfolding digit
show_digits zero n = ""
show_digits (suc f) n =
    let front = show_digits f (n / 10) in
    if ltb n 10 then digit n else str_append front (digit (n % 10))

-- `str(n)`
unfoldable pub show_nat : ℕ → String
unfolding show_digits
show_nat n = show_digits (suc n) n

-- `str(v)`
unfoldable pub str_of : Runtime → Value → String
unfolding show_nat
str_of rt null = "None"
str_of rt (bool true) = "True"
str_of rt (bool false) = "False"
str_of rt (int (pos n)) = show_nat n
str_of rt (int (negsuc n)) = str_append "-" (show_nat (suc n))
str_of rt (str s) = s
str_of rt v = rt.repr v

show_nat_runs : (show_nat 0 ≡ "0") × (show_nat 1045 ≡ "1045")
unfolding show_nat
show_nat_runs = (refl, refl)
