-- ===== src/Formats/Text.antt =====
-- What Parse takes from Go's strings: UTF-8 bytes, the byte-order mark, Split and Fields.
use Prim.Native.Nat.{◌/◌, ◌%◌}
use Prim.Native.Char.{Char, code}
use Prim.Native.String.{slice}
use pangaea.Prelude.{
  ℕ, zero, ◌+◌, String, Bool, ◌&&◌, ◌||◌, List, [], ◌∷◌, ◌++◌, ltb, leb, eqb, if◌then◌else◌,
}

-- The UTF-8 bytes of a code point.
utf8_of : ℕ → List ℕ
utf8_of c =
    if ltb c 0x80
    then c ∷ []
    else if ltb c 0x800
    then (0xC0 + c / 0x40) ∷ (0x80 + c % 0x40) ∷ []
    else if ltb c 0x10000
    then (0xE0 + c / 0x1000) ∷ (0x80 + c / 0x40 % 0x40) ∷ (0x80 + c % 0x40) ∷ []
    else (0xF0 + c / 0x40000)
      ∷ (0x80 + c / 0x1000 % 0x40)
      ∷ (0x80 + c / 0x40 % 0x40)
      ∷ (0x80 + c % 0x40)
      ∷ []

-- []byte(s)
unfoldable pub utf8 : String → List ℕ
unfolding utf8_of
utf8 String.[] = []
utf8 (String.◌∷◌ c s) = utf8_of (code c) ++ utf8 s

-- s[:16] of a hexadecimal digest.
abbrev pub first_16 : String → String
first_16 s = slice s zero 16

abbrev pub with_bom : List ℕ → List ℕ
with_bom bytes = 0xEF ∷ 0xBB ∷ 0xBF ∷ bytes

-- bytes.TrimPrefix(raw, utf8BOM)
unfoldable pub trim_bom : List ℕ → List ℕ
trim_bom (a ∷ b ∷ c ∷ rest) =
    if eqb a 0xEF && eqb b 0xBB && eqb c 0xBF then rest else a ∷ b ∷ c ∷ rest
trim_bom bytes = bytes

unfoldable pub add_to_head : Char → List String → List String
add_to_head c [] = String.◌∷◌ c "" ∷ []
add_to_head c (t ∷ ts) = String.◌∷◌ c t ∷ ts

abbrev pub is_dot : Char → Bool
is_dot c = eqb (code c) 46

-- strings.Split(s, ".")
unfoldable pub split_dots : String → List String
unfolding add_to_head
split_dots String.[] = "" ∷ []
split_dots (String.◌∷◌ c s) =
    let rest = split_dots s in if is_dot c then "" ∷ rest else add_to_head c rest

-- unicode.IsSpace
abbrev pub is_space : ℕ → Bool
is_space c =
    (leb 9 c && leb c 13)
    || eqb c 0x20
    || eqb c 0x85
    || eqb c 0xA0
    || eqb c 0x1680
    || (leb 0x2000 c && leb c 0x200A)
    || eqb c 0x2028
    || eqb c 0x2029
    || eqb c 0x202F
    || eqb c 0x205F
    || eqb c 0x3000

-- The runs of strings.Split at white space, the empty ones included.
unfoldable pub split_spaces : String → List String
unfolding add_to_head
split_spaces String.[] = "" ∷ []
split_spaces (String.◌∷◌ c s) =
    let rest = split_spaces s in if is_space (code c) then "" ∷ rest else add_to_head c rest

unfoldable pub non_empty : List String → List String
non_empty [] = []
non_empty (String.[] ∷ ts) = non_empty ts
non_empty (String.◌∷◌ c s ∷ ts) = String.◌∷◌ c s ∷ non_empty ts

-- strings.Fields
abbrev pub fields : String → List String
fields s = non_empty (split_spaces s)
