-- ===== src/Prelude/Strings.antt =====
-- Texts as lists of code points (of bytes, where they stand for bodies, files and ciphertexts), and what
-- the code uses of Go's `strings`. A text that is not valid UTF-8 is not modelled.
use Prim.Native.Char.{code}
use Prim.Native.Nat.{ℕ, ◌+◌, ◌-◌, ◌/◌, ◌%◌}
use Prim.Native.String.{String}
use mathlib.Core.Bool.{Bool, true, false, ◌&&◌, ◌||◌}
use mathlib.Core.List.{List, [], ◌∷◌, ◌++◌, map}
use mathlib.Core.Logic.{◌↔◌}
use mathlib.Core.Option.{Option, none, some}
use mathlib.Core.Path.{◌≡◌, refl}
use native.Mathlib.Omega.{arith}
use pixiv_relay.Prelude.Lists.{All}
use pixiv_relay.Prelude.Tests.{leb, ltb, nat_beq, if◌then◌else◌, Eq}

abbrev pub Text : Type 0
Text = List ℕ

-- The codes of a literal, which is ASCII wherever the model writes one.
abbrev pub codes : String → Text
codes String.[] = []
codes (String.◌∷◌ c s) = code c ∷ codes s

abbrev pub text_beq : Text → Text → Bool
text_beq [] [] = true
text_beq [] (d ∷ t) = false
text_beq (c ∷ s) [] = false
text_beq (c ∷ s) (d ∷ t) = nat_beq c d && text_beq s t

text_beq→ : (s t : Text) → text_beq s t ≡ true → s ≡ t
text_beq→ [] [] h = refl
text_beq→ [] (d ∷ t) h = ground arith
text_beq→ (c ∷ s) [] h = ground arith
text_beq→ (c ∷ s) (d ∷ t) h = ground (arith, text_beq→ s t)

text_beq_refl : (s : Text) → text_beq s s ≡ true
text_beq_refl [] = refl
text_beq_refl (c ∷ s) = ground (arith, text_beq_refl s)

pub text_beq_iff : (s t : Text) → (text_beq s t ≡ true) ↔ (s ≡ t)
text_beq_iff s t = (text_beq→ s t, λ e. rw e (text_beq_refl t))

instance abbrev pub text_eq : Eq Text
text_eq = record { beq = text_beq; beq_iff = text_beq_iff }

abbrev pub is_empty : Text → Bool
is_empty [] = true
is_empty (c ∷ s) = false

-- strings.Cut at a separator of one code.
unfoldable pub cut : ℕ → Text → Option (Text × Text)
cut c [] = none
cut c (d ∷ s) =
    if nat_beq d c
    then some ([], s)
    else elim (cut c s) [ none ↦ none | some (before, after) ↦ some (d ∷ before, after) ]

-- The code does not occur.
abbrev pub IsFree : ℕ → Text → Type 0
IsFree c = All (λ d. nat_beq d c ≡ false)

pub cut-append : (c : ℕ) (s t : Text) → IsFree c s → cut c (s ++ c ∷ t) ≡ some (s, t)
unfolding cut
cut-append c [] t h = ground arith
cut-append c (d ∷ s) t h = rw (h.0, cut-append c s t h.1)

-- strings.CutPrefix.
unfoldable pub cut_prefix : Text → Text → Option Text
cut_prefix [] s = some s
cut_prefix (c ∷ p) [] = none
cut_prefix (c ∷ p) (d ∷ s) = if nat_beq c d then cut_prefix p s else none

pub cut_prefix-append : (p s : Text) → cut_prefix p (p ++ s) ≡ some s
unfolding cut_prefix
cut_prefix-append [] s = refl
cut_prefix-append (c ∷ p) s = ground (arith, cut_prefix-append p s)

-- strings.HasPrefix.
unfoldable pub has_prefix : Text → Text → Bool
has_prefix [] s = true
has_prefix (c ∷ p) [] = false
has_prefix (c ∷ p) (d ∷ s) = nat_beq c d && has_prefix p s

-- strings.Contains.
unfoldable pub contains : Text → Text → Bool
unfolding has_prefix
contains p [] = has_prefix p []
contains p (d ∷ s) = has_prefix p (d ∷ s) || contains p s

-- Letters beyond ASCII whose other case is in ASCII: the Kelvin sign, the I with a dot, the dotless i
-- and the long s. The case of all others is left as it is, and no text of the code has them.
abbrev pub lower_code : ℕ → ℕ
lower_code c =
    if leb b'A' c && leb c b'Z'
    then c + 32
    else if nat_beq c 8490
    then b'k'
    else if nat_beq c 304
    then b'i'
    else c

abbrev pub upper_code : ℕ → ℕ
upper_code c =
    if leb b'a' c && leb c b'z'
    then c - 32
    else if nat_beq c 305
    then b'I'
    else if nat_beq c 383
    then b'S'
    else c

-- The smallest letter that folds to the same as this one.
abbrev pub fold_code : ℕ → ℕ
fold_code c =
    if leb b'A' c && leb c b'Z'
    then c + 32
    else if nat_beq c 8490
    then b'k'
    else if nat_beq c 383
    then b's'
    else c

unfoldable pub to_lower : Text → Text
to_lower = map lower_code

unfoldable pub to_upper : Text → Text
to_upper = map upper_code

-- The bytes of a code point in UTF-8.
abbrev pub utf8 : ℕ → List ℕ
utf8 c =
    if ltb c 128
    then c ∷ []
    else if ltb c 2048
    then (192 + c / 64) ∷ ((128 + c % 64) ∷ [])
    else if ltb c 65536
    then (224 + c / 4096) ∷ ((128 + c / 64 % 64) ∷ ((128 + c % 64) ∷ []))
    else (240 + c / 262144)
      ∷ ((128 + c / 4096 % 64) ∷ ((128 + c / 64 % 64) ∷ ((128 + c % 64) ∷ [])))

-- len of a text in UTF-8.
abbrev pub code_width : ℕ → ℕ
code_width c = if ltb c 128 then 1 else if ltb c 2048 then 2 else if ltb c 65536 then 3 else 4

unfoldable pub byte_length : Text → ℕ
byte_length [] = 0
byte_length (c ∷ s) = code_width c + byte_length s

-- strings.EqualFold.
unfoldable pub equal_fold : Text → Text → Bool
equal_fold s t = text_beq (map fold_code s) (map fold_code t)
