-- ===== src/Admin/Trim.antt =====
-- strings.TrimSpace leaves a trimmed text as it is.
use pixiv_relay.Admin.Texts.{is_space, trim_left, trim_right, trim_space}
use pixiv_relay.Prelude.{
  ◌≡◌, refl, ap, ◌∙◌, false, ◌&&◌, [], ◌∷◌, Text, is_empty, Bool-cases, inl, inr,
}

-- A text that does not begin with a space.
abbrev Starts : Text → Type 0
Starts [] = Unit
Starts (c ∷ s) = is_space c ≡ false

trim_left-Starts : (s : Text) → Starts (trim_left s)
unfolding trim_left
trim_left-Starts [] = tt
trim_left-Starts (c ∷ s) = elim (Bool-cases (is_space c)) [
  | inl blank ↦ rw blank (trim_left-Starts s)
  | inr solid ↦ rw solid solid
]

trim_right-Starts : (s : Text) → Starts s → Starts (trim_right s)
unfolding trim_right
trim_right-Starts [] h = tt
trim_right-Starts (c ∷ s) h = rw h h

trim_left_of : (s : Text) → Starts s → trim_left s ≡ s
unfolding trim_left
trim_left_of [] h = refl
trim_left_of (c ∷ s) h = rw h refl

trim_right_twice : (s : Text) → trim_right (trim_right s) ≡ trim_right s
unfolding trim_right
trim_right_twice [] = refl
trim_right_twice (c ∷ s) = elim (Bool-cases (is_space c && is_empty (trim_right s))) [
  | inl blank ↦ rw blank refl
  | inr solid ↦ rw (solid, trim_right_twice s, solid) refl
]

pub trim_space_twice : (s : Text) → trim_space (trim_space s) ≡ trim_space s
unfolding trim_space
trim_space_twice s =
    ap trim_right (
      trim_left_of (trim_right (trim_left s))
        (trim_right-Starts (trim_left s) (trim_left-Starts s)))
    ∙ trim_right_twice (trim_left s)
