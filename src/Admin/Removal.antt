-- ===== src/Admin/Removal.antt =====
-- The removal of an account takes all of it, and nothing else.
use pixiv_relay.Admin.Accounts.{
  Tables, Statement, begin, devices, entries, domains, recover_rows, accounts, commit, is_account,
  is_device_of, is_entry_of, is_domain_of, is_row_of, drop_if, without_account, settle,
  delete_account,
}
use pixiv_relay.Auth.Store.{Account, Device}
use pixiv_relay.Common.Errors.{Result, ok, err, refuse-eq-ok, ok_injective}
use pixiv_relay.Recover.Queue.{Row}
use pixiv_relay.Sync.Store.{Entry, DomainRow}
use pixiv_relay.Prelude.{
  ℕ, ◌≡◌, refl, ap, ◌∙◌, sym, Bool, not, List, [], ◌∷◌, keep, any, arith, nat_beq, Bool-cases, inl,
  inr, if◌then◌else◌,
}

-- Of each table, the rows that belong to account `b`.
abbrev pub share : ℕ → Tables → Tables
share b t = record {
  accounts = keep (is_account b) t.accounts;
  devices = keep (is_device_of b) t.devices;
  entries = keep (is_entry_of b) t.entries;
  domains = keep (is_domain_of b) t.domains;
  recover_rows = keep (is_row_of b) t.recover_rows;
}

abbrev pub empty_tables : Tables
empty_tables = record { accounts = []; devices = []; entries = []; domains = []; recover_rows = [] }

keep_other {ℓ} :
    {A : Type ℓ} (owner : A → ℕ) (id b : ℕ) (rows : List A)
    → keep (λ x. nat_beq (owner x) b) (drop_if (λ x. nat_beq (owner x) id) rows)
      ≡ (if nat_beq b id then [] else keep (λ x. nat_beq (owner x) b) rows)
keep_other owner id b [] = ground arith
keep_other owner id b (x ∷ rows) = ground (arith, keep_other owner id b rows)

share-without_account :
    (id b : ℕ) (t : Tables)
    → share b (without_account id t) ≡ (if nat_beq b id then empty_tables else share b t)
unfolding without_account
share-without_account id b t = elim (Bool-cases (nat_beq b id)) [
  | inl same ↦ rw (
    keep_other (λ (x : Account). x.id) id b t.accounts,
    keep_other (λ (x : Device). x.account_id) id b t.devices,
    keep_other (λ (x : Entry). x.account) id b t.entries,
    keep_other (λ (x : DomainRow). x.account) id b t.domains,
    keep_other (λ (x : Row). x.account) id b t.recover_rows,
    same,
  )
  | inr other ↦ rw (
    keep_other (λ (x : Account). x.id) id b t.accounts,
    keep_other (λ (x : Device). x.account_id) id b t.devices,
    keep_other (λ (x : Entry). x.account) id b t.entries,
    keep_other (λ (x : DomainRow). x.account) id b t.domains,
    keep_other (λ (x : Row). x.account) id b t.recover_rows,
    other,
  )
]

deleted :
    (fails : Statement → Bool) (id : ℕ) (t : Tables) (r : Result Tables)
    → ((t' : Tables) → r ≡ ok t' → t' ≡ without_account id t)
    → ((settle t r).1 ≡ ok tt)
    → (settle t r).0 ≡ without_account id t
deleted fails id t (ok t') shape h = shape t' refl
deleted fails id t (err e) shape h = absurd (cc h)

-- A removal that succeeds leaves no row of the account in any of the five tables, and every row of
-- every other account.
pub delete_account-share :
    (fails : Statement → Bool) (id b : ℕ) (t : Tables)
    → (delete_account fails id t).1 ≡ ok tt
    → share b (delete_account fails id t).0 ≡ (if nat_beq b id then empty_tables else share b t)
unfolding delete_account
delete_account-share fails id b t h =
    ap (share b) (
      deleted fails id t _
        (λ t' e.
          let (_, e1) = refuse-eq-ok (fails begin) _ _ e in
          let (_, e2) = refuse-eq-ok (fails devices) _ _ e1 in
          let (_, e3) = refuse-eq-ok (fails entries) _ _ e2 in
          let (_, e4) = refuse-eq-ok (fails domains) _ _ e3 in
          let (_, e5) = refuse-eq-ok (fails recover_rows) _ _ e4 in
          let (_, e6) = refuse-eq-ok (fails accounts) _ _ e5 in
          let (_, e7) = refuse-eq-ok (not (any (is_account id) t.accounts)) _ _ e6 in
          let (_, e8) = refuse-eq-ok (fails commit) _ _ e7 in sym (ok_injective e8))
        h)
    ∙ share-without_account id b t
