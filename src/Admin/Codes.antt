-- ===== src/Admin/Codes.antt =====
-- The invitation codes that come into force are the words of the text that the operator gave.
use pixiv_relay.Admin.Texts.{
  is_separator, add_field, split_words, fields_of, distinct_from, join_comma, parse_invite_codes,
  split_comma, csv_to_list,
}
use pixiv_relay.Prelude.Table.{HasDistinctKeys}
use pixiv_relay.Prelude.{
  ℕ, ◌≡◌, ◌≢◌, refl, ap, ◌∙◌, Bool, true, false, List, [], ◌∷◌, ◌++◌, All, Text, any, arith,
  nat_beq, text_beq, text_eq, Bool-cases, inl, inr, is_empty,
}

abbrev IsCommaFree : Text → Type 0
IsCommaFree w = any (λ c. nat_beq c b',') w ≡ false

abbrev IsWord : Text → Type 0
IsWord w = (is_empty w ≡ false) × IsCommaFree w

separator_of_comma : (c : ℕ) → is_separator c ≡ false → nat_beq c b',' ≡ false
separator_of_comma c h = ground arith

add_field-All :
    (w : Text) (ws : List Text) → IsCommaFree w → All IsWord ws → All IsWord (add_field w ws)
add_field-All w ws free h = elim (Bool-cases (is_empty w)) [
  | inl blank ↦ rw blank h
  | inr full ↦ rw full ((full, free), h)
]

split_words-All : (s : Text) → IsCommaFree (split_words s).0 × All IsWord (split_words s).1
unfolding split_words
split_words-All [] = (refl, tt)
split_words-All (c ∷ s) =
    let (free, words) = split_words-All s in
    elim (Bool-cases (is_separator c)) [
      | inl cut ↦ rw cut (refl, add_field-All _ _ free words)
      | inr kept ↦ rw (kept) (rw (separator_of_comma c kept) free, words)
    ]

fields_of-All : (s : Text) → All IsWord (fields_of s)
unfolding fields_of
fields_of-All s = let (free, words) = split_words-All s in add_field-All _ _ free words

distinct_from-All {κ} :
    (P : Text → Type κ) (seen ts : List Text) → All P ts → All P (distinct_from seen ts)
unfolding distinct_from
distinct_from-All P seen [] h = tt
distinct_from-All P seen (t ∷ ts) h = elim (Bool-cases (any (λ s. text_beq s t) seen)) [
  | inl old ↦ rw old (distinct_from-All P seen ts h.1)
  | inr new ↦ rw new (h.0, distinct_from-All P (t ∷ seen) ts h.1)
]

split_comma_word : (w : Text) → IsCommaFree w → split_comma w ≡ (w, [])
unfolding split_comma
split_comma_word [] h = refl
split_comma_word (c ∷ w) h = ground (arith, split_comma_word w)

split_comma_more :
    (w s : Text)
    → IsCommaFree w
    → split_comma (w ++ b',' ∷ s) ≡ (w, (split_comma s).0 ∷ (split_comma s).1)
unfolding split_comma
split_comma_more [] s h = refl
split_comma_more (c ∷ w) s h = ground (arith, split_comma_more w s)

join_comma_full :
    (w : Text) (ws : List Text) → is_empty w ≡ false → is_empty (join_comma (w ∷ ws)) ≡ false
unfolding join_comma
join_comma_full [] ws h = absurd (cc (h))
join_comma_full (c ∷ w) [] h = refl
join_comma_full (c ∷ w) (v ∷ ws) h = refl

split_comma-join_comma :
    (w : Text) (ws : List Text) → All IsWord (w ∷ ws) → split_comma (join_comma (w ∷ ws)) ≡ (w, ws)
unfolding join_comma
split_comma-join_comma w [] h = split_comma_word w h.0.1
split_comma-join_comma w (v ∷ ws) h =
    split_comma_more w (join_comma (v ∷ ws)) h.0.1
    ∙ ap (λ p. (w, p.0 ∷ p.1)) (split_comma-join_comma v ws h.1)

csv_to_list-join_comma : (ws : List Text) → All IsWord ws → csv_to_list (join_comma ws) ≡ ws
unfolding csv_to_list join_comma
csv_to_list-join_comma [] h = refl
csv_to_list-join_comma (w ∷ ws) h =
    rw (join_comma_full w ws h.0.0) (ap (λ p. p.0 ∷ p.1) (split_comma-join_comma w ws h))

abbrev pub is_among : Text → List Text → Bool
is_among code ws = any (λ s. text_beq s code) ws

is_among_same :
    (t code : Text) (ws : List Text) → text_beq t code ≡ true → is_among t ws ≡ is_among code ws
is_among_same t code ws h = ap (λ c. is_among c ws) ((text_eq.beq_iff t code).0 h)

absent-All : (t : Text) (ws : List Text) → is_among t ws ≡ false → All (λ s. s ≢ t) ws
absent-All t [] h = tt
absent-All t (w ∷ ws) h = ground (arith, absent-All t ws, text_eq.beq_iff w t)

-- Nothing that was seen comes again.
distinct_from_unseen :
    (code : Text) (seen ts : List Text)
    → is_among code seen ≡ true
    → is_among code (distinct_from seen ts) ≡ false
unfolding distinct_from
distinct_from_unseen code seen [] h = refl
distinct_from_unseen code seen (t ∷ ts) h = elim (Bool-cases (is_among t seen)) [
  | inl old ↦ rw old (distinct_from_unseen code seen ts h)
  | inr new ↦ elim (Bool-cases (text_beq t code)) [
    | inl same ↦ absurd (cc (is_among_same t code seen same, h, new))
    | inr differs ↦ rw (new, differs) (distinct_from_unseen code (t ∷ seen) ts (rw differs h))
  ]
]

is_among-distinct_from :
    (code : Text) (seen ts : List Text)
    → is_among code seen ≡ false
    → is_among code (distinct_from seen ts) ≡ is_among code ts
unfolding distinct_from
is_among-distinct_from code seen [] h = refl
is_among-distinct_from code seen (t ∷ ts) h = elim (Bool-cases (is_among t seen)) [
  | inl old ↦ elim (Bool-cases (text_beq t code)) [
    | inl same ↦ absurd (cc (is_among_same t code seen same, h, old))
    | inr differs ↦ rw (old, differs) (is_among-distinct_from code seen ts h)
  ]
  | inr new ↦ elim (Bool-cases (text_beq t code)) [
    | inl same ↦ rw (new, same) refl
    | inr differs ↦ rw (new, differs) (is_among-distinct_from code (t ∷ seen) ts (rw differs h))
  ]
]

distinct_from-HasDistinctKeys :
    (seen ts : List Text) → HasDistinctKeys (λ s. s) (distinct_from seen ts)
unfolding distinct_from
distinct_from-HasDistinctKeys seen [] = tt
distinct_from-HasDistinctKeys seen (t ∷ ts) = elim (Bool-cases (is_among t seen)) [
  | inl old ↦ rw old (distinct_from-HasDistinctKeys seen ts)
  | inr new ↦
      let itself : is_among t (t ∷ seen) ≡ true = rw ((text_eq.beq_iff t t).1 refl) refl in
      rw new (
        absent-All t (distinct_from (t ∷ seen) ts) (distinct_from_unseen t (t ∷ seen) ts itself),
        distinct_from-HasDistinctKeys (t ∷ seen) ts,
      )
]

pub csv_to_list-distinct_from :
    (raw : Text) → csv_to_list (parse_invite_codes raw) ≡ distinct_from [] (fields_of raw)
unfolding parse_invite_codes
csv_to_list-distinct_from raw =
    csv_to_list-join_comma (distinct_from [] (fields_of raw))
      (distinct_from-All IsWord [] (fields_of raw) (fields_of-All raw))

-- The codes that registration asks for, once a setting is parsed and split again, are exactly the
-- words of the text that was given, each once.
pub csv_to_list-parse_invite_codes :
    (raw code : Text)
    → (is_among code (csv_to_list (parse_invite_codes raw)) ≡ is_among code (fields_of raw))
      × HasDistinctKeys (λ s. s) (csv_to_list (parse_invite_codes raw))
csv_to_list-parse_invite_codes raw code = rw (csv_to_list-distinct_from raw) (
  is_among-distinct_from code [] (fields_of raw) refl,
  distinct_from-HasDistinctKeys [] (fields_of raw),
)
