-- ===== src/Recover/Probe.antt =====
-- What a mirror finds: pages in order, fifty at most, and every page of an unbroken series.
use mathlib.Core.Path.{subst}
use pixiv_relay.Prelude.Int.{ℤ}
use pixiv_relay.Prelude.{
  ℕ, suc, zero, ◌+◌, ◌≡◌, refl, ◌<◌, ◌≤◌, Bool, true, false, List, [], ◌∷◌, ◌++◌, Text, arith,
  codes, leb,
}
use pixiv_relay.Recover.Sources.{
  Page, Deps, Fetched, found, failed, missing, broken, Size, fetch_image, page_url, page_of,
  put_first, probe_pages, mirror_base, fetch_mirror,
}

-- Page numbers that start at `lo` or later, grow, and stay below `hi`.
abbrev pub Climbs : ℕ → ℕ → List Page → Type 0
Climbs lo hi [] = Unit
Climbs lo hi (p ∷ pages) = (lo ≤ p.page) × (p.page < hi) × Climbs (suc p.page) hi pages

Climbs-mono :
    (lo lo' hi : ℕ) (pages : List Page) → lo' ≤ lo → Climbs lo hi pages → Climbs lo' hi pages
Climbs-mono lo lo' hi [] h c = tt
Climbs-mono lo lo' hi (p ∷ pages) h (a, b, rest) = (omega arith, b, rest)

-- Pages that start with the page 0 and then grow, below `hi`.
abbrev pub StartsAtZero : ℕ → List Page → Type 0
StartsAtZero hi [] = ⊥
StartsAtZero hi (p ∷ pages) = (p.page ≡ 0) × Climbs 1 hi pages

-- What holds of the pages, if there are any.
abbrev FoundAll : (List Page → Type 0) → Fetched (List Page) → Type 0
FoundAll P (found pages) = P pages
FoundAll P (failed f) = Unit

module _ {C : Type 0} (deps : Deps C) where
  put_first-Climbs :
      (lo n hi : ℕ) (url : Text) (d : ℤ × ℤ) (r : C × Fetched (List Page))
      → lo ≤ n
      → n < hi
      → FoundAll (Climbs (suc n) hi) r.1
      → FoundAll (Climbs lo hi) (put_first deps (page_of deps n url d) r).1
  put_first-Climbs lo n hi url (w, h) (c, found pages) a b k = (a, b, k)
  put_first-Climbs lo n hi url (w, h) (c, failed f) a b k = tt

  put_first-StartsAtZero :
      (hi : ℕ) (url : Text) (d : ℤ × ℤ) (r : C × Fetched (List Page))
      → FoundAll (Climbs 1 hi) r.1
      → FoundAll (StartsAtZero hi) (put_first deps (page_of deps 0 url d) r).1
  put_first-StartsAtZero hi url (w, h) (c, found pages) k = (refl, k)
  put_first-StartsAtZero hi url (w, h) (c, failed f) k = tt

  FoundAll-mono :
      (lo lo' hi : ℕ) (r : Fetched (List Page))
      → lo' ≤ lo
      → FoundAll (Climbs lo hi) r
      → FoundAll (Climbs lo' hi) r
  FoundAll-mono lo lo' hi (found pages) h k = Climbs-mono lo lo' hi pages h k
  FoundAll-mono lo lo' hi (failed f) h k = tt

  probe-Climbs :
      (left : ℕ) (c : C) (base : Text) (n miss : ℕ)
      → FoundAll (Climbs n (n + left)) (probe_pages deps left c base n miss).1
  unfolding probe_pages
  probe-Climbs zero c base n miss = tt
  probe-Climbs (suc left) c base n miss =
      go (leb 2 miss) (fetch_image deps c (page_url deps base n)) (probe-Climbs left)
    where
      go :
          (stop : Bool) (r : C × Size)
          → ((c' : C) (b : Text) (m ms : ℕ)
              → FoundAll (Climbs m (m + left)) (probe_pages deps left c' b m ms).1)
          → (let page : C × Fetched (List Page) = (elim stop [
            | true ↦ (c, found [])
            | false ↦
                let (c', size) = r in
                elim size [
                  | found d ↦
                      put_first deps
                        (page_of deps n (page_url deps base n) d)
                        (probe_pages deps left c' base (n + 1) 0)
                  | failed missing ↦ probe_pages deps left c' base (n + 1) (miss + 1)
                  | failed broken ↦ (c', failed broken)
                ]
          ]) in
              FoundAll (Climbs n (n + suc left)) page.1)
      go true r rec = tt
      go false (c', found d) rec =
          put_first-Climbs n n (n + suc left) _ d _ (omega arith) (omega arith) (
            subst (λ hi. FoundAll (Climbs (suc n) hi) (probe_pages deps left c' base (n + 1) 0).1)
              (omega arith)
              (FoundAll-mono (n + 1) (suc n) (n + 1 + left) _ (omega arith)
                (rec c' base (n + 1) 0)))
      go false (c', failed missing) rec = FoundAll-mono (n + 1) n (n + suc left) _ (omega arith) (
          subst
            (λ hi.
              FoundAll (Climbs (n + 1) hi) (probe_pages deps left c' base (n + 1) (miss + 1)).1)
            (omega arith) (rec c' base (n + 1) (miss + 1)))
      go false (c', failed broken) rec = tt

  mirror-FoundAll :
      (host : Text) (c : C) (pid : Text)
      → FoundAll (StartsAtZero 50) (fetch_mirror deps host c pid).1
  unfolding fetch_mirror
  mirror-FoundAll host c pid = go (fetch_image deps c (mirror_base deps host pid ++ codes ".jpg"))
    where
      go :
          (r : C × Size)
          → (let pages : C × Fetched (List Page) =
                (let (c', size) = r in
                  elim size [
                    | failed f ↦ (c', failed f)
                    | found d ↦
                        put_first deps
                          (page_of deps 0 (mirror_base deps host pid ++ codes ".jpg") d)
                          (probe_pages deps 49 c' (mirror_base deps host pid) 1 0)
                  ]) in
              FoundAll (StartsAtZero 50) pages.1)
      go (c', failed f) = tt
      go (c', found d) =
          put_first-StartsAtZero 50 _ d _ (probe-Climbs 49 c' (mirror_base deps host pid) 1 0)

  -- The pages that a mirror finds begin with the page 0, and the numbers of the others grow from page
  -- to page and are below 50.
  pub mirror-StartsAtZero :
      (host : Text) (c c' : C) (pid : Text) (pages : List Page)
      → fetch_mirror deps host c pid ≡ (c', found pages)
      → StartsAtZero 50 pages
  mirror-StartsAtZero host c c' pid pages h =
      subst (λ (r : C × Fetched (List Page)). FoundAll (StartsAtZero 50) r.1) h
        (mirror-FoundAll host c pid)
