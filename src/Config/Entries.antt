-- ===== src/Config/Entries.antt =====
-- What the configuration holds whatever the environment says.
use pixiv_relay.Admin.Texts.{trim_space, split_comma}
use pixiv_relay.Admin.Trim.{trim_space_twice}
use pixiv_relay.Config.{Host, Config, tidy, split_csv, or_texts, env_float, env_float_def, load}
use pixiv_relay.Prelude.{
  ◌≡◌, refl, true, false, List, [], ◌∷◌, All, Text, codes, is_empty, Bool-cases, inl, inr,
}

-- An entry of a list: it is not empty, and has no blanks around it.
abbrev pub IsEntry : Text → Type 0
IsEntry t = (is_empty t ≡ false) × (trim_space t ≡ t)

tidy-All : (items : List Text) → All IsEntry (tidy items)
unfolding tidy
tidy-All [] = tt
tidy-All (item ∷ items) = elim (Bool-cases (is_empty (trim_space item))) [
  | inl blank ↦ rw blank (tidy-All items)
  | inr full ↦ rw full ((full, trim_space_twice item), tidy-All items)
]

split_csv-All : (s : Text) → All IsEntry (split_csv s)
unfolding split_csv
split_csv-All s = tidy-All ((split_comma s).0 ∷ (split_comma s).1)

-- The built-in sources, each a name without blanks.
abbrev built_in : List Text
built_in = codes "snapshot" ∷ codes "pixiv_cat" ∷ codes "pixiv_re" ∷ []

built_in-All : All IsEntry built_in
unfolding trim_space
built_in-All = ((refl, refl), ((refl, refl), ((refl, refl), tt)))

-- A list with an entry, where all are entries.
abbrev pub HasEntries : List Text → Type 0
HasEntries ts = (t : Text) × (us : List Text) × (ts ≡ t ∷ us) × All IsEntry ts

or_texts-HasEntries : (given : List Text) → All IsEntry given → HasEntries (or_texts built_in given)
or_texts-HasEntries [] h =
    (codes "snapshot", codes "pixiv_cat" ∷ codes "pixiv_re" ∷ [], refl, built_in-All)
or_texts-HasEntries (u ∷ us) h = (u, us, refl, h)

module _ {F Ip : Type 0} (host : Host F Ip) where
  env_float_def-positive :
      (name : Text) (default : F)
      → host.is_positive default ≡ true
      → host.is_positive (env_float_def host name default) ≡ true
  unfolding env_float_def
  env_float_def-positive name default h =
      elim (Bool-cases (host.is_positive (env_float host name (host.of_nat 0)))) [
        | inl good ↦ rw good good
        | inr bad ↦ rw bad h
      ]

  listed : (name : Text) → All IsEntry (split_csv (host.getenv name))
  listed name = split_csv-All (host.getenv name)

  -- What holds of every configuration.
  pub record IsSound (c : Config F Ip) : Type 0 where
    pub invite_codes : All IsEntry c.invite_codes
    pub static_tokens : All IsEntry c.static_tokens
    pub relay_hosts : All IsEntry c.relay_extra_hosts
    pub img_hosts : All IsEntry c.img_extra_hosts
    pub origins : All IsEntry c.cors_origins
    pub sources : HasEntries c.recover_sources
    pub write_rate : host.is_positive c.rate_write_per_min ≡ true
    pub img_rate : host.is_positive c.rate_img_per_min ≡ true
    pub register_rate : host.is_positive c.rate_register_per_hour ≡ true

  -- Whatever the environment says, the invitation codes, the static tokens, the hosts and the origins
  -- are texts that are not empty and have no blanks around them, there is a recovery source, and the
  -- three rates are positive, where the built-in ones are.
  pub load-IsSound :
      host.is_positive (host.of_nat 60) ≡ true
      → host.is_positive (host.of_nat 300) ≡ true
      → host.is_positive (host.of_nat 10) ≡ true
      → IsSound (load host)
  unfolding load
  load-IsSound write img register = record {
    invite_codes = listed (codes "INVITE_CODES");
    static_tokens = listed (codes "STATIC_TOKENS");
    relay_hosts = listed (codes "RELAY_EXTRA_HOSTS");
    img_hosts = listed (codes "IMG_EXTRA_HOSTS");
    origins = listed (codes "CORS_ORIGINS");
    sources =
        or_texts-HasEntries (split_csv (host.getenv (codes "RECOVER_SOURCES")))
          (listed (codes "RECOVER_SOURCES"));
    write_rate = env_float_def-positive (codes "RATE_WRITE_PER_MIN") (host.of_nat 60) write;
    img_rate = env_float_def-positive (codes "RATE_IMG_PER_MIN") (host.of_nat 300) img;
    register_rate =
        env_float_def-positive (codes "RATE_REGISTER_PER_HOUR") (host.of_nat 10) register;
  }
