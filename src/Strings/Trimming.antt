-- ===== src/Strings/Trimming.antt =====
-- strings.TrimSpace leaves a text without spaces at its ends, and such a text alone.
use Prim.Native.Char.{code}
use pangaea.Prelude.{◌≡◌, refl, String, false, ◌==◌, ◌&&◌, Bool-cases, inl, inr}
use pangaea.Formats.Text.{is_space}
use pangaea.Strings.{trim_left, trim_right, trim_space}

-- The first character is no space.
abbrev IsTight : String → Type 0
IsTight String.[] = Unit
IsTight (String.◌∷◌ c s) = is_space (code c) ≡ false

trim_left-IsTight : (s : String) → IsTight (trim_left s)
unfolding trim_left
trim_left-IsTight String.[] = tt
trim_left-IsTight (String.◌∷◌ c s) = elim (Bool-cases (is_space (code c))) [
  | inl e ↦ rw e (trim_left-IsTight s)
  | inr e ↦ rw e e
]

trim_left_idle : (s : String) → IsTight s → trim_left s ≡ s
unfolding trim_left
trim_left_idle String.[] h = refl
trim_left_idle (String.◌∷◌ c s) h = rw h refl

trim_right-IsTight : (s : String) → IsTight s → IsTight (trim_right s)
unfolding trim_right
trim_right-IsTight String.[] h = tt
trim_right-IsTight (String.◌∷◌ c s) h =
    elim (Bool-cases (trim_right s == "" && is_space (code c))) [ inl e ↦ rw e tt | inr e ↦ rw e h ]

trim_right_idem : (s : String) → trim_right (trim_right s) ≡ trim_right s
unfolding trim_right
trim_right_idem String.[] = refl
trim_right_idem (String.◌∷◌ c s) = elim (Bool-cases (trim_right s == "" && is_space (code c))) [
  | inl e ↦ rw e refl
  | inr e ↦ rw (e, trim_right_idem s, e) refl
]

-- A trimmed text is trimmed.
pub trim_space_idem : (s : String) → trim_space (trim_space s) ≡ trim_space s
unfolding trim_space
trim_space_idem s =
    rw
      (trim_left_idle (trim_right (trim_left s))
        (trim_right-IsTight (trim_left s) (trim_left-IsTight s)))
      (trim_right_idem (trim_left s))
