-- ===== src/Migrate/Order.antt =====
-- The names of the migrations are those of all scripts, in the order of sort.Strings.
use mathlib.Core.Path.{subst}
use pixiv_relay.Migrate.{DirEntry, text_leb, insert_name, has_suffix, migration_names}
use pixiv_relay.Prelude.{
  ◌≡◌, refl, true, false, ◌&&◌, not, List, [], ◌∷◌, All, Elem, Text, codes, arith, sym, ◌⊎◌,
  if◌then◌else◌, Bool-cases, inl, inr,
}

text_leb_total : (s t : Text) → text_leb s t ≡ false → text_leb t s ≡ true
unfolding text_leb
text_leb_total [] t h = absurd (cc h)
text_leb_total (c ∷ s) [] h = refl
text_leb_total (c ∷ s) (d ∷ t) h = ground (arith, text_leb_total s t)

text_leb_trans : (r s t : Text) → text_leb r s ≡ true → text_leb s t ≡ true → text_leb r t ≡ true
unfolding text_leb
text_leb_trans [] s t h k = refl
text_leb_trans (c ∷ r) [] t h k = absurd (cc h)
text_leb_trans (c ∷ r) (d ∷ s) [] h k = absurd (cc k)
text_leb_trans (c ∷ r) (d ∷ s) (e ∷ t) h k = ground (arith, text_leb_trans r s t)

-- Each name stands before all that follow.
abbrev IsAscending : List Text → Type 0
IsAscending [] = Unit
IsAscending (n ∷ names) = All (λ m. text_leb n m ≡ true) names × IsAscending names

All-below :
    (n m : Text) (names : List Text)
    → text_leb n m ≡ true
    → All (λ k. text_leb m k ≡ true) names
    → All (λ k. text_leb n k ≡ true) names
All-below n m [] h k = tt
All-below n m (l ∷ names) h k = (text_leb_trans n m l h k.0, All-below n m names h k.1)

All-insert_name {κ} :
    (P : Text → Type κ) (n : Text) (names : List Text)
    → P n
    → All P names
    → All P (insert_name n names)
unfolding insert_name
All-insert_name P n [] p h = (p, tt)
All-insert_name P n (m ∷ names) p h = elim (Bool-cases (text_leb n m)) [
  | inl le ↦ rw le (p, h)
  | inr gt ↦ rw gt (h.0, All-insert_name P n names p h.1)
]

insert_name-IsAscending :
    (n : Text) (names : List Text) → IsAscending names → IsAscending (insert_name n names)
unfolding insert_name
insert_name-IsAscending n [] h = (tt, tt)
insert_name-IsAscending n (m ∷ names) h = elim (Bool-cases (text_leb n m)) [
  | inl le ↦ rw le ((le, All-below n m names le h.0), h)
  | inr gt ↦ rw gt (
    All-insert_name (λ k. text_leb m k ≡ true) n names (text_leb_total n m gt) h.0,
    insert_name-IsAscending n names h.1,
  )
]

migration_names-IsAscending : (entries : List DirEntry) → IsAscending (migration_names entries)
unfolding migration_names
migration_names-IsAscending [] = tt
migration_names-IsAscending (e ∷ entries) =
    elim (Bool-cases (not e.is_dir && has_suffix (codes ".sql") e.name)) [
      | inl sql ↦ rw sql (insert_name-IsAscending e.name _ (migration_names-IsAscending entries))
      | inr other ↦ rw other (migration_names-IsAscending entries)
    ]

-- A migration is a file whose name ends in .sql.
abbrev IsScript : DirEntry → Type 0
IsScript e = (e.is_dir ≡ false) × (has_suffix (codes ".sql") e.name ≡ true)

-- The names are those of all migrations and of nothing else, in order.
pub record IsListing (entries : List DirEntry) (names : List Text) : Type 0 where
  pub ascending : IsAscending names
  pub complete : (e : DirEntry) → Elem e entries → IsScript e → Elem e.name names
  pub sound :
      (n : Text) → Elem n names → (e : DirEntry) × Elem e entries × IsScript e × (e.name ≡ n)

insert_name_self : (n : Text) (names : List Text) → Elem n (insert_name n names)
unfolding insert_name
insert_name_self n [] = inl refl
insert_name_self n (m ∷ names) = elim (Bool-cases (text_leb n m)) [
  | inl le ↦ rw le (inl refl)
  | inr gt ↦ rw gt (inr (insert_name_self n names))
]

insert_name_keeps : (n k : Text) (names : List Text) → Elem k names → Elem k (insert_name n names)
unfolding insert_name
insert_name_keeps n k [] h = elim h [ ]
insert_name_keeps n k (m ∷ names) h = elim (Bool-cases (text_leb n m)) [
  | inl le ↦ rw le (inr h)
  | inr gt ↦ rw gt (elim h [ inl e ↦ inl e | inr later ↦ inr (insert_name_keeps n k names later) ])
]

Elem-insert_name :
    (n k : Text) (names : List Text) → Elem k (insert_name n names) → (k ≡ n) ⊎ Elem k names
unfolding insert_name
Elem-insert_name n k [] h = h
Elem-insert_name n k (m ∷ names) h = elim (Bool-cases (text_leb n m)) [
  | inl le ↦ subst (λ b. Elem k (if b then n ∷ (m ∷ names) else m ∷ insert_name n names)) le h
  | inr gt ↦
      elim (subst (λ b. Elem k (if b then n ∷ (m ∷ names) else m ∷ insert_name n names)) gt h) [
        | inl e ↦ inr (inl e)
        | inr later ↦ elim (Elem-insert_name n k names later) [
          | inl e ↦ inl e
          | inr old ↦ inr (inr old)
        ]
      ]
]

complete_lem :
    (entries : List DirEntry) (e : DirEntry)
    → Elem e entries
    → IsScript e
    → Elem e.name (migration_names entries)
unfolding migration_names
complete_lem [] e h s = elim h [ ]
complete_lem (d ∷ entries) e (inl same) s =
    let script = subst IsScript same s in
    subst (λ x. Elem x.name (migration_names (d ∷ entries))) (sym same)
      (rw (script.0, script.1) (insert_name_self d.name (migration_names entries)))
complete_lem (d ∷ entries) e (inr later) s =
    let rest = complete_lem entries e later s in
    elim (Bool-cases (not d.is_dir && has_suffix (codes ".sql") d.name)) [
      | inl sql ↦ rw sql (insert_name_keeps d.name e.name _ rest)
      | inr other ↦ rw other rest
    ]

later_found :
    (d : DirEntry) (entries : List DirEntry) (n : Text)
    → ((e : DirEntry) × Elem e entries × IsScript e × (e.name ≡ n))
    → (e : DirEntry) × Elem e (d ∷ entries) × IsScript e × (e.name ≡ n)
later_found d entries n (e, found, script, same) = (e, inr found, script, same)

sound_lem :
    (entries : List DirEntry) (n : Text)
    → Elem n (migration_names entries)
    → (e : DirEntry) × Elem e entries × IsScript e × (e.name ≡ n)
unfolding migration_names
sound_lem [] n h = elim h [ ]
sound_lem (d ∷ entries) n h =
    let names = migration_names entries in
    elim (Bool-cases (not d.is_dir && has_suffix (codes ".sql") d.name)) [
      | inl sql ↦
          elim (Elem-insert_name d.name n names
            (subst (λ b. Elem n (if b then insert_name d.name names else names)) sql h)) [
              | inl e ↦ (d, inl refl, (ground (arith, sql), ground (arith, sql)), sym e)
              | inr m ↦ later_found d entries n (sound_lem entries n m)
            ]
      | inr other ↦ later_found d entries n (
          sound_lem entries n
            (subst (λ b. Elem n (if b then insert_name d.name names else names)) other h))
    ]

pub migration_names-IsListing :
    (entries : List DirEntry) → IsListing entries (migration_names entries)
migration_names-IsListing entries = record {
  ascending = migration_names-IsAscending entries;
  complete = complete_lem entries;
  sound = sound_lem entries;
}
