-- ===== src/Sync/Json.antt =====
-- internal/sync/domains.go: the checks of an item's data, over decoded JSON.
use pixiv_relay.Prelude.{
  ℕ, Bool, true, false, ◌||◌, ◌&&◌, nat_beq, lower_code, has_prefix, ap, ◌∙◌, List, [], ◌∷◌, ◌++◌,
  Option, none, some, ◌≡◌, refl, arith, Text, codes, contains, to_lower, text_beq, if◌then◌else◌,
  any,
}

-- A decoded value: Go's nil, bool, float64, string, []any and map[string]any. A number stands for
-- its text, of which the checks read nothing.
mutual
  pub data Value : Type 0 where
    null : Value
    bool : Bool → Value
    num : Text → Value
    str : Text → Value
    arr : Items → Value
    obj : Fields → Value

  pub data Items : Type 0 where
    nil : Items
    cons : Value → Items → Items

  pub data Fields : Type 0 where
    end : Fields
    field : Text → Value → Fields → Fields

abbrev pub is_sensitive_name : Text → Bool
is_sensitive_name k = contains (codes "token") (to_lower k)

unfoldable mutual
  pub contains_sensitive_field : Value → Bool
  contains_sensitive_field null = false
  contains_sensitive_field (bool b) = false
  contains_sensitive_field (num n) = false
  contains_sensitive_field (str s) = false
  contains_sensitive_field (arr es) = sensitive_items es
  contains_sensitive_field (obj fs) = sensitive_fields fs

  pub sensitive_items : Items → Bool
  sensitive_items nil = false
  sensitive_items (cons e es) = contains_sensitive_field e || sensitive_items es

  pub sensitive_fields : Fields → Bool
  sensitive_fields end = false
  sensitive_fields (field k v fs) =
      is_sensitive_name k || (contains_sensitive_field v || sensitive_fields fs)

-- `m[key]`
unfoldable pub get_field : Text → Fields → Option Value
get_field key end = none
get_field key (field k v fs) = if text_beq k key then some v else get_field key fs

abbrev pub is_number : Option Value → Bool
is_number (some (num n)) = true
is_number _ = false

unfoldable pub all_strings : Items → Bool
all_strings nil = true
all_strings (cons (str s) es) = all_strings es
all_strings (cons null es) = false
all_strings (cons (bool b) es) = false
all_strings (cons (num n) es) = false
all_strings (cons (arr xs) es) = false
all_strings (cons (obj fs) es) = false

abbrev pub is_string_array : Option Value → Bool
is_string_array none = true
is_string_array (some null) = true
is_string_array (some (arr es)) = all_strings es
is_string_array (some (bool b)) = false
is_string_array (some (num n)) = false
is_string_array (some (str s)) = false
is_string_array (some (obj fs)) = false

unfoldable pub validate_bookmark_snapshot : Fields → Bool
unfolding get_field all_strings
validate_bookmark_snapshot m =
    if is_number (get_field (codes "illustId") m)
    then is_string_array (get_field (codes "imageUrls") m)
    else false

-- The specification: a text has a part that is the word, each letter of it in one of its forms.
unfoldable pub matches : List (List ℕ) → Text → Bool
matches [] s = true
matches (forms ∷ word) [] = false
matches (forms ∷ word) (c ∷ s) = any (λ f. nat_beq c f) forms && matches word s

unfoldable pub bears : List (List ℕ) → Text → Bool
unfolding matches
bears word [] = matches word []
bears word (c ∷ s) = matches word (c ∷ s) || bears word s

-- Small and capital letters, and the Kelvin sign.
abbrev pub token_forms : List (List ℕ)
token_forms =
    (b't' ∷ b'T' ∷ [])
    ∷ (b'o' ∷ b'O' ∷ [])
    ∷ (b'k' ∷ b'K' ∷ 8490 ∷ [])
    ∷ (b'e' ∷ b'E' ∷ [])
    ∷ (b'n' ∷ b'N' ∷ [])
    ∷ []

-- The lowered letter is the word's exactly for its forms.
abbrev FitsLetter : ℕ → List ℕ → Type 0
FitsLetter p forms = (c : ℕ) → nat_beq p (lower_code c) ≡ any (λ f. nat_beq c f) forms

abbrev Fits : Text → List (List ℕ) → Type 0
Fits [] [] = Unit
Fits [] (forms ∷ word) = ⊥
Fits (p ∷ ps) [] = ⊥
Fits (p ∷ ps) (forms ∷ word) = FitsLetter p forms × Fits ps word

token-Fits : Fits (codes "token") token_forms
token-Fits = (
  λ c. ground arith,
  (λ c. ground arith, (λ c. ground arith, (λ c. ground arith, (λ c. ground arith, tt)))),
)

has_prefix-eq-matches :
    (ps : Text) (word : List (List ℕ)) (s : Text)
    → Fits ps word
    → has_prefix ps (to_lower s) ≡ matches word s
unfolding has_prefix matches to_lower
has_prefix-eq-matches [] [] s h = refl
has_prefix-eq-matches [] (forms ∷ word) s h = absurd h
has_prefix-eq-matches (p ∷ ps) [] s h = absurd h
has_prefix-eq-matches (p ∷ ps) (forms ∷ word) [] h = refl
has_prefix-eq-matches (p ∷ ps) (forms ∷ word) (c ∷ s) h =
    ap (λ b. b && has_prefix ps (to_lower s)) (h.0 c)
    ∙ ap (λ b. any (λ f. nat_beq c f) forms && b) (has_prefix-eq-matches ps word s h.1)

contains-eq-bears :
    (ps : Text) (word : List (List ℕ)) (s : Text)
    → Fits ps word
    → contains ps (to_lower s) ≡ bears word s
unfolding contains bears to_lower
contains-eq-bears ps word [] h = has_prefix-eq-matches ps word [] h
contains-eq-bears ps word (c ∷ s) h =
    ap (λ b. b || contains ps (to_lower s)) (has_prefix-eq-matches ps word (c ∷ s) h)
    ∙ ap (λ b. matches word (c ∷ s) || b) (contains-eq-bears ps word s h)

any-congruent : (names : List Text) → any is_sensitive_name names ≡ any (bears token_forms) names
any-congruent [] = refl
any-congruent (k ∷ names) =
    ground (arith, contains-eq-bears (codes "token") token_forms k token-Fits, any-congruent names)

-- The specification: every field name of a value, at any depth, in the order of the text.
mutual
  pub field_names : Value → List Text
  field_names null = []
  field_names (bool b) = []
  field_names (num n) = []
  field_names (str s) = []
  field_names (arr es) = names_of_items es
  field_names (obj fs) = names_of_fields fs

  pub names_of_items : Items → List Text
  names_of_items nil = []
  names_of_items (cons e es) = field_names e ++ names_of_items es

  pub names_of_fields : Fields → List Text
  names_of_fields end = []
  names_of_fields (field k v fs) = k ∷ (field_names v ++ names_of_fields fs)

any-append {ℓ} :
    {A : Type ℓ} (p : A → Bool) (xs ys : List A) → any p (xs ++ ys) ≡ any p xs || any p ys
any-append p [] ys = refl
any-append p (x ∷ xs) ys = ground (arith, any-append p xs ys)

mutual
  unfolding contains_sensitive_field field_names

  sensitive-value : (v : Value) → contains_sensitive_field v ≡ any is_sensitive_name (field_names v)
  sensitive-value null = refl
  sensitive-value (bool b) = refl
  sensitive-value (num n) = refl
  sensitive-value (str s) = refl
  sensitive-value (arr es) = sensitive-items es
  sensitive-value (obj fs) = sensitive-fields fs

  sensitive-items : (es : Items) → sensitive_items es ≡ any is_sensitive_name (names_of_items es)
  sensitive-items nil = refl
  sensitive-items (cons e es) = ground (
    arith,
    sensitive-value e,
    sensitive-items es,
    any-append is_sensitive_name (field_names e) (names_of_items es),
  )

  sensitive-fields :
      (fs : Fields) → sensitive_fields fs ≡ any is_sensitive_name (names_of_fields fs)
  sensitive-fields end = refl
  sensitive-fields (field k v fs) = ground (
    arith,
    sensitive-value v,
    sensitive-fields fs,
    any-append is_sensitive_name (field_names v) (names_of_fields fs),
  )

-- A value counts as sensitive exactly when some field name in it, at any depth, contains the word
-- token, each letter of it small, capital, or the Kelvin sign for the k.
pub contains_sensitive_field-eq-any :
    (v : Value) → contains_sensitive_field v ≡ any (bears token_forms) (field_names v)
contains_sensitive_field-eq-any v = sensitive-value v ∙ any-congruent (field_names v)
