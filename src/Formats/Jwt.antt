-- ===== src/Formats/Jwt.antt =====
-- The claims of a JSON web token, as the parsers of codexauth and geminioauth read them.
use pangaea.Prelude.{ℤ, ℕ, String, Bool, Option, none, some, List, ◌∷◌, ◌>>=◌, ◌==◌, if◌then◌else◌}
use pangaea.Formats.Text.{split_dots}

-- What encoding/json decodes into an `any`; a number is its text (UseNumber).
mutual
  pub data Json : Type 0 where
    null : Json
    boolean : Bool → Json
    number : String → Json
    text : String → Json
    array : Array → Json
    object : Object → Json

  pub data Array : Type 0 where
    end : Array
    item : Json → Array → Array

  -- A map[string]any, in some order of iteration.
  pub data Object : Type 0 where
    blank : Object
    member : String → Json → Object → Object

unfoldable pub get : String → Object → Option Json
get k blank = none
get k (member j v o) = let rest = get k o in if j == k then some v else rest

-- s, _ := claims[k].(string)
unfoldable pub text_value : Option Json → String
text_value (some (text s)) = s
text_value _ = ""

unfoldable pub text_claim : String → Object → String
unfolding text_value get
text_claim k o = text_value (get k o)

unfoldable pub object_value : Option Json → Option Object
object_value (some (object o)) = some o
object_value _ = none

-- m, ok := claims[k].(map[string]any)
unfoldable pub object_claim : String → Object → Option Object
unfolding object_value get
object_claim k o = object_value (get k o)

-- base64.RawURLEncoding, base64.URLEncoding, encoding/json into a map, and strconv's int64.
pub record Jwt : Type 0 where
  pub decode_raw_url : String → Option (List ℕ)
  pub decode_url : String → Option (List ℕ)
  pub decode_object : List ℕ → Option Object
  pub int64 : String → Option ℤ

abbrev pub or_else : {A : Type 0} → Option A → Option A → Option A
or_else none b = b
or_else (some a) b = some a

unfoldable pub payload_of : Jwt → List String → Option (List ℕ)
payload_of jwt (head ∷ body ∷ rest) = or_else (jwt.decode_raw_url body) (jwt.decode_url body)
payload_of jwt _ = none

-- decodeJWTClaims
unfoldable pub claims_of : Jwt → String → Option Object
unfolding payload_of
claims_of jwt token = do payload ← payload_of jwt (split_dots token); jwt.decode_object payload
