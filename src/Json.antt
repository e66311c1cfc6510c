-- ===== src/Json.antt =====
-- `json.Marshal` of a `[]byte`: its base64 text in quotes.
use adele_queue.Base.{
  ℕ, ◌+◌, ◌-◌, ◌*◌, ◌/◌, ◌%◌, ◌<◌, ◌≤◌, ◌≡◌, refl, arith, [], ◌∷◌, ◌++◌, ltb, ◌==◌, if◌then◌else◌,
  length, length-append,
}
use adele_queue.Base.Text.{Text, codes}

-- A digit of base64.
digit : ℕ → ℕ
digit n =
    if ltb n 26
    then n + 65
    else if ltb n 52
    then n + 71
    else if ltb n 62
    then n - 4
    else if n == 62
    then 43
    else 47

unfoldable pub base64 : Text → Text
unfolding digit
base64 [] = []
base64 (a ∷ []) = digit (a / 4) ∷ digit (a % 4 * 16) ∷ b'=' ∷ b'=' ∷ []
base64 (a ∷ b ∷ []) = digit (a / 4) ∷ digit (a % 4 * 16 + b / 16) ∷ digit (b % 16 * 4) ∷ b'=' ∷ []
base64 (a ∷ b ∷ c ∷ r) =
    digit (a / 4)
    ∷ digit (a % 4 * 16 + b / 16)
    ∷ digit (b % 16 * 4 + c / 64)
    ∷ digit (c % 64)
    ∷ base64 r

unfoldable pub json_marshal : Text → Text
unfolding base64
json_marshal p = b'"' ∷ base64 p ++ b'"' ∷ []

length-base64 : (p : Text) → length p ≤ length (base64 p)
unfolding base64
length-base64 [] = omega arith
length-base64 (a ∷ []) = omega arith
length-base64 (a ∷ b ∷ []) = omega arith
length-base64 (a ∷ b ∷ c ∷ r) = omega (arith, length-base64 r)

-- What is stored is longer than the payload, so it is never the payload itself.
pub length-json_marshal : (p : Text) → length p < length (json_marshal p)
unfolding json_marshal
length-json_marshal p = omega (arith, length-base64 p, length-append (base64 p) (b'"' ∷ []))

json_marshal_man : json_marshal (codes "Man") ≡ codes "\"TWFu\""
unfolding json_marshal
json_marshal_man = refl

json_marshal_ma : json_marshal (codes "Ma") ≡ codes "\"TWE=\""
unfolding json_marshal
json_marshal_ma = refl
