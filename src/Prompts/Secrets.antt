-- ===== src/Prompts/Secrets.antt =====
-- `_reject_secret_fields` of prompts.py, and what it keeps out.

use simulation_ai.Prelude.{
  String, Bool, true, false, ◌||◌, List, [], ◌∷◌, ◌==◌, ◌≡◌, ◌↔◌, refl, if◌then◌else◌,
}
use simulation_ai.Prelude.Texts.{replace_char}
use simulation_ai.Prelude.Lists.{any}
use simulation_ai.Json.{
  Value, null, bool, int, float, str, arr, obj, Items, nil, cons, Fields, end, field,
}
use simulation_ai.Result.{Result, ok, err, ◌>>◌, secret_field}
use simulation_ai.Runtime.{Runtime}
use simulation_ai.Model.{one_of}

-- `s.endswith(p)`
unfoldable pub endswith : String → String → Bool
endswith String.[] p = "" == p
endswith (String.◌∷◌ c s) p = let rest = endswith s p in String.◌∷◌ c s == p || rest

abbrev pub secret_field_names : List String
secret_field_names =
    "api_key" ∷ "apikey" ∷ "openai_api_key" ∷ "password" ∷ "passwd" ∷ "secret" ∷ "token"
    ∷ "access_token" ∷ "refresh_token" ∷ "private_key" ∷ "recovery_code" ∷ "cookie"
    ∷ "session_cookie" ∷ "authorization" ∷ "authorization_header" ∷ []

abbrev pub secret_suffixes : List String
secret_suffixes =
    "_api_key" ∷ "_password" ∷ "_private_key" ∷ "_access_token" ∷ "_refresh_token" ∷ []

unfoldable pub normalized : Runtime → String → String
unfolding replace_char
normalized rt key = replace_char 32 "_" (replace_char b'-' "_" (rt.lower key))

unfoldable pub is_secret : Runtime → String → Bool
unfolding normalized one_of endswith
is_secret rt key =
    one_of (normalized rt key) secret_field_names
    || any (endswith (normalized rt key)) secret_suffixes

unfoldable mutual
  unfolding is_secret

  pub reject_secret_fields : Runtime → Value → Result (Unit {0})
  reject_secret_fields rt (obj d) = reject_in_fields rt d
  reject_secret_fields rt (arr xs) = reject_in_items rt xs
  reject_secret_fields rt null = ok tt
  reject_secret_fields rt (bool b) = ok tt
  reject_secret_fields rt (int n) = ok tt
  reject_secret_fields rt (float m) = ok tt
  reject_secret_fields rt (str s) = ok tt

  pub reject_in_fields : Runtime → Fields → Result (Unit {0})
  reject_in_fields rt end = ok tt
  reject_in_fields rt (field key child d) =
      if is_secret rt key
      then err secret_field
      else reject_secret_fields rt child >> reject_in_fields rt d

  pub reject_in_items : Runtime → Items → Result (Unit {0})
  reject_in_items rt nil = ok tt
  reject_in_items rt (cons child xs) = reject_secret_fields rt child >> reject_in_items rt xs

-- A key of a dict that stands somewhere in a value.
mutual
  pub data KeyIn (key : String) : Value → Type 0 where
    in_obj : {d : Fields} → KeyInFields key d → KeyIn key (obj d)
    in_arr : {xs : Items} → KeyInItems key xs → KeyIn key (arr xs)

  pub data KeyInFields (key : String) : Fields → Type 0 where
    here : {j : String} {v : Value} {d : Fields} → j ≡ key → KeyInFields key (field j v d)
    inside : {j : String} {v : Value} {d : Fields} → KeyIn key v → KeyInFields key (field j v d)
    later :
        {j : String} {v : Value} {d : Fields} → KeyInFields key d → KeyInFields key (field j v d)

  pub data KeyInItems (key : String) : Items → Type 0 where
    item : {v : Value} {xs : Items} → KeyIn key v → KeyInItems key (cons v xs)
    more : {v : Value} {xs : Items} → KeyInItems key xs → KeyInItems key (cons v xs)

-- what is left of an entry that was let through
entry_ok :
    (b : Bool) (first rest : Result (Unit {0}))
    → (if b then err secret_field else first >> rest) ≡ ok tt
    → (b ≡ false) × (first ≡ ok tt) × (rest ≡ ok tt)
entry_ok true first rest h = cc
entry_ok false (ok tt) rest h = (refl, refl, h)
entry_ok false (err e) rest h = cc

module _ (rt : Runtime) where
  mutual
    unfolding reject_secret_fields

    rejects :
        (v : Value) (key : String)
        → reject_secret_fields rt v ≡ ok tt
        → KeyIn key v
        → is_secret rt key ≡ false
    rejects (obj d) key h (in_obj k) = rejects_fields d key h k
    rejects (arr xs) key h (in_arr k) = rejects_items xs key h k
    rejects null key h k = elim k [ ]
    rejects (bool b) key h k = elim k [ ]
    rejects (int n) key h k = elim k [ ]
    rejects (float m) key h k = elim k [ ]
    rejects (str s) key h k = elim k [ ]

    rejects_fields :
        (d : Fields) (key : String)
        → reject_in_fields rt d ≡ ok tt
        → KeyInFields key d
        → is_secret rt key ≡ false
    rejects_fields (field j v d) key h (here e) =
        rw (← e) (entry_ok (is_secret rt j) (reject_secret_fields rt v) (reject_in_fields rt d) h).0
    rejects_fields (field j v d) key h (inside k) =
        rejects v key
          (entry_ok (is_secret rt j) (reject_secret_fields rt v) (reject_in_fields rt d) h).1 k
    rejects_fields (field j v d) key h (later k) =
        rejects_fields d key
          (entry_ok (is_secret rt j) (reject_secret_fields rt v) (reject_in_fields rt d) h).2 k
    rejects_fields end key h k = elim k [ ]

    rejects_items :
        (xs : Items) (key : String)
        → reject_in_items rt xs ≡ ok tt
        → KeyInItems key xs
        → is_secret rt key ≡ false
    rejects_items (cons v xs) key h (item k) =
        rejects v key (entry_ok false (reject_secret_fields rt v) (reject_in_items rt xs) h).1 k
    rejects_items (cons v xs) key h (more k) =
        rejects_items xs key
          (entry_ok false (reject_secret_fields rt v) (reject_in_items rt xs) h).2 k
    rejects_items nil key h k = elim k [ ]

  mutual
    unfolding reject_secret_fields

    accepts :
        (v : Value)
        → ((key : String) → KeyIn key v → is_secret rt key ≡ false)
        → reject_secret_fields rt v ≡ ok tt
    accepts (obj d) h = accepts_fields d (λ key k. h key (in_obj k))
    accepts (arr xs) h = accepts_items xs (λ key k. h key (in_arr k))
    accepts null h = refl
    accepts (bool b) h = refl
    accepts (int n) h = refl
    accepts (float m) h = refl
    accepts (str s) h = refl

    accepts_fields :
        (d : Fields)
        → ((key : String) → KeyInFields key d → is_secret rt key ≡ false)
        → reject_in_fields rt d ≡ ok tt
    accepts_fields end h = refl
    accepts_fields (field j v d) h =
        rw (h j (here refl))
          (rw (accepts v (λ key k. h key (inside k))) (accepts_fields d (λ key k. h key (later k))))

    accepts_items :
        (xs : Items)
        → ((key : String) → KeyInItems key xs → is_secret rt key ≡ false)
        → reject_in_items rt xs ≡ ok tt
    accepts_items nil h = refl
    accepts_items (cons v xs) h =
        rw (accepts v (λ key k. h key (item k))) (accepts_items xs (λ key k. h key (more k)))

  -- A value is let through exactly when no key of a dict in it, at any depth, looks like the name of a
  -- secret.
  pub reject_secret_fields_iff :
      (v : Value)
      → (reject_secret_fields rt v ≡ ok tt)
        ↔ ((key : String) → KeyIn key v → is_secret rt key ≡ false)
  reject_secret_fields_iff v = (λ h key k. rejects v key h k, accepts v)
