-- ===== src/Prelude/Examples.antt =====
-- Decimal texts and differences at the ends of an int64.
use pixiv_relay.Prelude.Decimal.{parse_int, format_int}
use pixiv_relay.Prelude.Int.{pos, negsuc, two63, sub64}
use pixiv_relay.Prelude.{◌≡◌, refl, ◌-◌, some, none, codes}

samples :
    (parse_int (codes "-9223372036854775808") ≡ some (negsuc (two63 - 1)))
    × (parse_int (codes "9223372036854775808") ≡ none)
    × (parse_int (codes "+007") ≡ some (pos 7))
    × (parse_int (codes "1_0") ≡ none)
    × (format_int (negsuc 41) ≡ codes "-42")
unfolding parse_int format_int
samples = (refl, refl, refl, refl, refl)

overflow : sub64 (pos 5) (negsuc (two63 - 1)) ≡ negsuc (two63 - 6)
unfolding sub64
overflow = refl
