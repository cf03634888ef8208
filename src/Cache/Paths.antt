-- ===== src/Cache/Paths.antt =====
-- Where the files of the cache lie: each key has a path of its own.
use pixiv_relay.Cache.Store.{Config, file_path, DiskLru, join, path_for}
use pixiv_relay.Prelude.Table.{find}
use pixiv_relay.Prelude.{
  ◌+◌, ◌≤◌, ◌≡◌, refl, ap, ◌∙◌, sym, [], ◌∷◌, ◌++◌, Option, Text, Bool-cases, inl, inr, text_eq,
  text_beq, arith, length, length-append, take, drop, if◌then◌else◌, codes,
}

-- The rest behind prefixes of one length.
same_rest : (p q s t : Text) → length p ≡ length q → p ++ s ≡ q ++ t → s ≡ t
same_rest [] [] s t h e = e
same_rest [] (d ∷ q) s t h e = absurd (omega (arith, h))
same_rest (c ∷ p) [] s t h e = absurd (omega (arith, h))
same_rest (c ∷ p) (d ∷ q) s t h e = same_rest p q s t (omega (arith, h)) (ap (drop 1) e)

-- The key has enough characters for its folders.
abbrev pub IsLong : Text → Type 0
IsLong key = 4 ≤ length key

abbrev folder : Text → Text → Text
folder dir key = join (join dir (take 2 key)) (take 2 (drop 2 key))

length-folder : (dir key : Text) → IsLong key → length (folder dir key) ≡ length dir + 6
length-folder dir [] h = absurd (omega (arith, h))
length-folder dir (a ∷ []) h = absurd (omega (arith, h))
length-folder dir (a ∷ (b ∷ [])) h = absurd (omega (arith, h))
length-folder dir (a ∷ (b ∷ (c ∷ []))) h = absurd (omega (arith, h))
length-folder dir (a ∷ (b ∷ (c ∷ (d ∷ key)))) h = omega (
  arith,
  length-append (dir ++ b'/' ∷ (a ∷ (b ∷ []))) (b'/' ∷ (c ∷ (d ∷ []))),
  length-append dir (b'/' ∷ (a ∷ (b ∷ []))),
)

module _ {F : Type 0} where
  abbrev path_prefix : Config F → Text → Text
  path_prefix cfg key = if text_beq cfg.layout (codes "flat") then cfg.dir else folder cfg.dir key

  path_for_lem :
      (cfg : Config F) (key : Text) → path_for cfg key ≡ path_prefix cfg key ++ b'/' ∷ key
  unfolding path_for
  path_for_lem cfg key = elim (Bool-cases (text_beq cfg.layout (codes "flat"))) [
    | inl flat ↦ rw flat refl
    | inr sharded ↦ rw sharded refl
  ]

  length-path_prefix :
      (cfg : Config F) (j k : Text)
      → IsLong j
      → IsLong k
      → length (path_prefix cfg j) ≡ length (path_prefix cfg k)
  length-path_prefix cfg j k hj hk = elim (Bool-cases (text_beq cfg.layout (codes "flat"))) [
    | inl flat ↦ rw flat refl
    | inr sharded ↦ rw sharded (length-folder cfg.dir j hj ∙ sym (length-folder cfg.dir k hk))
  ]

  pub path_for_injective :
      (cfg : Config F) (j k : Text) → IsLong j → IsLong k → path_for cfg j ≡ path_for cfg k → j ≡ k
  path_for_injective cfg j k hj hk e = ap (drop 1) (
      same_rest (path_prefix cfg j) (path_prefix cfg k) (b'/' ∷ j) (b'/' ∷ k)
        (length-path_prefix cfg j k hj hk) (sym (path_for_lem cfg j) ∙ (e ∙ path_for_lem cfg k)))

  -- The file of a key.
  abbrev pub stored_at : Text → DiskLru F → Option (Text × Text)
  stored_at key c = find file_path (path_for c.cfg key) c.files
