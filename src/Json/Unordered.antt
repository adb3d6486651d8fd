-- ===== src/Json/Unordered.antt =====
-- Dicts as Python compares them, without an order: a quotient of the dicts, and the digest on it.
use Prim.Native.Nat.{ℕ}
use Prim.Native.Char.{IsScalar}
use text.Mathlib.TextEquality.{IsScalar-prop}
use mathlib.Core.Quot
use mathlib.Core.Quot.{Quot, Quot-set}
use simulation_ai.Prelude.{String, ◌≡◌, ap}
use simulation_ai.Json.{obj, Fields}
use simulation_ai.Json.Sort.{sort_keys, sort_fields}
use simulation_ai.Json.Sorted.{sort_fields_idem}
use simulation_ai.Json.Entries.{IsDict, SameEntries, sort_fields-SameEntries}
use simulation_ai.Runtime.{Runtime, digest}

abbrev pub Dict : Type 0
Dict = (d : Fields) × IsDict d

abbrev pub Unordered : Type 0
Unordered = Quot (λ (a b : Dict). SameEntries a.0 b.0)

IsScalar-IsSet : (n : ℕ) → IsSet (IsScalar n)
IsScalar-IsSet n = hlevel (IsScalar-prop n)

String-IsSet : IsSet String
String-IsSet = hlevel (IsScalar-IsSet)

Fields-IsSet : IsSet Fields
Fields-IsSet = hlevel (IsScalar-IsSet)

-- the sorted form of a dict
pub canonical : Unordered → Fields
canonical =
    Quot.lift Fields-IsSet (λ (d : Dict). sort_fields d.0)
      (λ (d e : Dict) same. (sort_fields-SameEntries d.0 e.0 d.1 e.1).1 same)

pub unordered_digest : Runtime → Unordered → String
unfolding canonical
unordered_digest rt u = digest rt (obj (canonical u))

canonical-injective : (p q : Unordered) → canonical p ≡ canonical q → p ≡ q
unfolding canonical
canonical-injective =
    Quot.ind (λ p f g. λ i q same. Quot-set p q (f q same) (g q same) i)
      (λ (d : Dict).
        Quot.ind (λ q f g. λ i same. Quot-set (Quot.mk d) q (f same) (g same) i)
          (λ (e : Dict) same. Quot.sound ((sort_fields-SameEntries d.0 e.0 d.1 e.1).0 same)))

-- `digest` is a function of the dict without its order, at every depth, and the sorted form that it hashes
-- differs for dicts that differ in a key or in a value.
pub digest-Unordered :
    (rt : Runtime)
    → ((d : Dict) → unordered_digest rt (Quot.mk d) ≡ digest rt (obj d.0))
      × ((p q : Unordered) → canonical p ≡ canonical q → p ≡ q)
unfolding canonical unordered_digest digest sort_keys
digest-Unordered rt = (λ d. ap (λ f. rt.sha256 (obj f)) (sort_fields_idem d.0), canonical-injective)
