-- ===== src/Config/Invites.antt =====
-- The invitation codes that internal/config reads, and those that internal/admin reads from the same
-- variable.
use pixiv_relay.Admin.Codes.{csv_to_list-distinct_from}
use pixiv_relay.Admin.Texts.{
  is_space, is_separator, add_field, trim_left, trim_right, trim_space, split_words, fields_of,
  distinct_from, parse_invite_codes, split_comma, csv_to_list,
}
use pixiv_relay.Config.{tidy, split_csv}
use pixiv_relay.Prelude.{
  ℕ, ◌≡◌, refl, ap, ◌∙◌, sym, false, List, [], ◌∷◌, Text, nat_beq, Bool-cases, inl, inr, arith,
}

abbrev pub IsSolid : Text → Type 0
IsSolid [] = Unit
IsSolid (c ∷ s) = (is_space c ≡ false) × IsSolid s

separator_of_solid : (c : ℕ) → is_space c ≡ false → is_separator c ≡ nat_beq c b','
separator_of_solid c h = ground arith

trim_left_solid : (s : Text) → IsSolid s → trim_left s ≡ s
unfolding trim_left
trim_left_solid [] h = refl
trim_left_solid (c ∷ s) h = rw h.0 refl

trim_right_solid : (s : Text) → IsSolid s → trim_right s ≡ s
unfolding trim_right
trim_right_solid [] h = refl
trim_right_solid (c ∷ s) h = rw (h.0, trim_right_solid s h.1) refl

trim_space_solid : (s : Text) → IsSolid s → trim_space s ≡ s
unfolding trim_space
trim_space_solid s h = ap trim_right (trim_left_solid s h) ∙ trim_right_solid s h

tidy_solid : (w : Text) (ws : List Text) → IsSolid w → tidy (w ∷ ws) ≡ add_field w (tidy ws)
unfolding tidy
tidy_solid w ws h = rw (trim_space_solid w h) refl

-- Without blanks, the words between separators are the parts between commas that are not empty.
split_words-IsSolid :
    (s : Text)
    → IsSolid s
    → (split_words s ≡ ((split_comma s).0, tidy (split_comma s).1)) × IsSolid (split_comma s).0
unfolding split_words split_comma tidy
split_words-IsSolid [] h = (refl, tt)
split_words-IsSolid (c ∷ s) (solid, h) =
    let (words, front) = split_words-IsSolid s h in
    elim (Bool-cases (nat_beq c b',')) [
      | inl comma ↦
          rw (separator_of_solid c solid, comma, words)
            (ap (λ ws. ([], ws)) (sym (tidy_solid (split_comma s).0 (split_comma s).1 front)), tt)
      | inr other ↦ rw (separator_of_solid c solid, other, words) (refl, (solid, front))
    ]

fields_of-split_csv : (s : Text) → IsSolid s → fields_of s ≡ split_csv s
unfolding fields_of split_csv
fields_of-split_csv s h =
    let (words, front) = split_words-IsSolid s h in
    ap (λ p. add_field p.0 p.1) words ∙ sym (tidy_solid (split_comma s).0 (split_comma s).1 front)

-- Where INVITE_CODES holds no blanks, the codes that a server without administration accepts are the
-- codes that one with administration accepts, but for codes given twice, which the latter has once.
pub invites_agree :
    (s : Text) → IsSolid s → csv_to_list (parse_invite_codes s) ≡ distinct_from [] (split_csv s)
invites_agree s h = csv_to_list-distinct_from s ∙ ap (distinct_from []) (fields_of-split_csv s h)
