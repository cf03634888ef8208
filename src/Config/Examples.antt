-- ===== src/Config/Examples.antt =====
-- The theorems on internal/config, applied to one environment.
use pixiv_relay.Admin.Texts.{distinct_from, parse_invite_codes, csv_to_list}
use pixiv_relay.Config.{Host, split_csv, load}
use pixiv_relay.Config.Entries.{IsSound, load-IsSound}
use pixiv_relay.Config.Invites.{invites_agree}
use pixiv_relay.Prelude.{
  ℕ, ◌≡◌, refl, ltb, [], ◌∷◌, ◌++◌, none, Text, codes, text_beq, if◌then◌else◌,
}

-- Floats are numbers here, and an address is a text.
abbrev host : Host ℕ Text
host = record {
  getenv = λ name. if text_beq name (codes "INVITE_CODES") then codes " a b ,,c" else [];
  join_path = λ dir name. dir ++ b'/' ∷ name;
  parse_float = λ t. none;
  is_positive = λ n. ltb 0 n;
  of_nat = λ n. n;
  parse_ip = λ t. none;
  parse_cidr = λ t. none;
}

load-IsSound_example : IsSound host (load host)
load-IsSound_example = load-IsSound host refl refl refl

invites_agree_example :
    csv_to_list (parse_invite_codes (codes "a,,b,a"))
    ≡ distinct_from [] (split_csv (codes "a,,b,a"))
invites_agree_example =
    invites_agree (codes "a,,b,a") (refl, (refl, (refl, (refl, (refl, (refl, tt))))))

-- A code with a blank is one code without administration, and two with it.
blank_in_code : split_csv (codes " a b ,,c") ≡ codes "a b" ∷ (codes "c" ∷ [])
unfolding split_csv pixiv_relay.Admin.Texts.trim_space
blank_in_code = refl

blank_in_setting :
    csv_to_list (parse_invite_codes (codes " a b ,,c")) ≡ codes "a" ∷ (codes "b" ∷ (codes "c" ∷ []))
unfolding csv_to_list parse_invite_codes
blank_in_setting = refl
