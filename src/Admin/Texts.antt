-- ===== src/Admin/Texts.antt =====
-- The texts of internal/admin/settings.go: trimming, invitation codes and their lists.
use pixiv_relay.Prelude.{
  ℕ, Bool, ◌&&◌, ◌||◌, List, [], ◌∷◌, ◌++◌, Text, leb, nat_beq, text_beq, any, is_empty,
  if◌then◌else◌, text_eq,
}

-- strings.TrimSpace.
abbrev pub is_space : ℕ → Bool
is_space c =
    nat_beq c b' '
    || (leb 9 c && leb c 13)
    || (leb 8192 c && leb c 8202)
    || any (nat_beq c) (133 ∷ 160 ∷ 5760 ∷ 8232 ∷ 8233 ∷ 8239 ∷ 8287 ∷ 12288 ∷ [])

unfoldable pub trim_left : Text → Text
trim_left [] = []
trim_left (c ∷ s) = let rest = trim_left s in if is_space c then rest else c ∷ s

unfoldable pub trim_right : Text → Text
trim_right [] = []
trim_right (c ∷ s) = let rest = trim_right s in if is_space c && is_empty rest then [] else c ∷ rest

unfoldable pub trim_space : Text → Text
unfolding trim_left trim_right
trim_space s = trim_right (trim_left s)

-- The separators of invitation codes.
abbrev pub is_separator : ℕ → Bool
is_separator c = any (nat_beq c) (b',' ∷ 10 ∷ 13 ∷ 9 ∷ b' ' ∷ [])

abbrev pub add_field : Text → List Text → List Text
add_field word fields = if is_empty word then fields else word ∷ fields

-- strings.FieldsFunc: the word at the front, and the words after it.
unfoldable pub split_words : Text → Text × List Text
split_words [] = ([], [])
split_words (c ∷ s) =
    let (word, fields) = split_words s in
    if is_separator c then ([], add_field word fields) else (c ∷ word, fields)

unfoldable pub fields_of : Text → List Text
unfolding split_words
fields_of s = let (word, fields) = split_words s in add_field word fields

-- The loop that leaves out what was seen.
unfoldable pub distinct_from : List Text → List Text → List Text
distinct_from seen [] = []
distinct_from seen (t ∷ ts) =
    let new = distinct_from (t ∷ seen) ts in
    let old = distinct_from seen ts in if any (λ s. text_beq s t) seen then old else t ∷ new

unfoldable pub join_comma : List Text → Text
join_comma [] = []
join_comma (t ∷ []) = t
join_comma (t ∷ (u ∷ ts)) = t ++ b',' ∷ join_comma (u ∷ ts)

unfoldable pub parse_invite_codes : Text → Text
unfolding fields_of distinct_from join_comma
parse_invite_codes raw = join_comma (distinct_from [] (fields_of raw))

-- strings.Split at commas.
unfoldable pub split_comma : Text → Text × List Text
split_comma [] = ([], [])
split_comma (c ∷ s) =
    let (word, rest) = split_comma s in
    if nat_beq c b',' then ([], word ∷ rest) else (c ∷ word, rest)

unfoldable pub csv_to_list : Text → List Text
unfolding split_comma
csv_to_list csv = if is_empty csv then [] else let (word, rest) = split_comma csv in word ∷ rest
