-- ===== src/Recover/Examples.antt =====
-- The theorems on internal/recover, applied to one image and a mirror that has two pages of it.
use pixiv_relay.Crypto.{no_cipher}
use pixiv_relay.Prelude.Int.{ℤ, pos}
use pixiv_relay.Prelude.{
  ℕ, suc, ◌≡◌, ◌≢◌, refl, Bool, true, false, List, [], ◌∷◌, Option, none, some, Text, codes, any,
  text_beq, if◌then◌else◌, text_eq, nat_eq, pair_eq, inl, inr, arith,
}
use pixiv_relay.Recover.Lifetime.{Outcome}
use pixiv_relay.Recover.Query.{query_escape, wait, query, is_numeric}
use pixiv_relay.Recover.Queue.{Source, Codec, Queue, Job, ready, enqueue, write_result, job_key}
use pixiv_relay.Recover.Probe.{StartsAtZero, mirror-StartsAtZero}
use pixiv_relay.Recover.Sources.{fetch_mirror, found, failed, missing, Page, Deps}
use pixiv_relay.Recover.Wait.{query-Leads}
use pixiv_relay.Recover.Work.{work}
use pixiv_relay.Recover.Workers.{here, step, ask, IsTracked}
use pixiv_relay.Recover.Single.{IsSingle, Leads-IsSingle}
use pixiv_relay.Sync.Json.{obj, end}
use pixiv_relay.Sync.Store.{Entry}

abbrev page : Page
page = record { page = 0; url = codes "https://i.pixiv.cat/1.jpg"; width = pos 3; height = pos 4 }

abbrev codec : Codec
codec = record {
  cipher = no_cipher;
  unmarshal = λ t. some (obj end);
  to_int = λ t. pos 0;
  show_pages = λ pages. codes "[1]";
  read_pages = λ t. if text_beq t (codes "[1]") then some (page ∷ []) else some [];
  show_meta = λ m. codes "{}";
  read_meta = λ t. [];
}

abbrev queue : Queue
queue = record {
  rows =
      record {
        account = 1;
        pid = codes "1";
        pages = codes "[1]";
        source = codes "snapshot";
        meta = codes "{}";
        status = ready;
        expire = pos 500;
      }
      ∷ [];
  inflight = [];
  working = [];
  done = [];
  ttl = pos 100;
  negative_ttl = pos 10;
}

abbrev job : Job
job = record { account = 1; pid = codes "1"; key = codes "1/1" }

abbrev result : Outcome
result = some (page ∷ [], codes "pixiv_cat")

numeric : is_numeric (codes "1") ≡ true
unfolding is_numeric
numeric = refl

-- Two sources that count their calls; the second has the page.
abbrev sources : List (Source ℕ)
sources =
    record { name = codes "snapshot"; fetch = λ c pid snap. (suc c, failed missing) }
    ∷ record { name = codes "pixiv_cat"; fetch = λ c pid snap. (suc c, found (page ∷ [])) }
    ∷ []

abbrev pushed : Entry
pushed = record {
  account = 1;
  domain = codes "bookmark_snapshot";
  key = codes "1";
  data_text = codes "{}";
  updated_at = pos 10;
  deleted = false;
  seq = pos 5;
}

abbrev worked : Queue
worked = (work codec sources false false (pos 60) (pushed ∷ []) job 0 queue).1

idle-IsTracked : IsTracked queue
idle-IsTracked = record {
  working = tt;
  done = tt;
  apart = tt;
  working_held = tt;
  done_held = tt;
  working_named = tt;
  done_named = tt;
}

abbrev asked : Queue
asked = enqueue false (pos 50) 1 (codes "1") queue

Leads-IsSingle_example : IsSingle asked
Leads-IsSingle_example =
    Leads-IsSingle codec queue asked idle-IsTracked
      (step here (ask false (pos 50) 1 (codes "1") queue))

abbrev asked_two : Queue
asked_two = enqueue false (pos 55) 1 (codes "2") asked

abbrev first_job : Job
first_job = record { account = 1; pid = codes "1"; key = job_key 1 (codes "1") }

-- Another image is asked for while the first is searched.
query-Leads_example :
    query codec false false false (pos 60) 1 (codes "1") (codes "http://h") asked_two
    ≡ (asked_two, wait)
unfolding enqueue job_key pixiv_relay.Prelude.Decimal.show_ℕ
query-Leads_example =
    query-Leads codec false (pos 60) (codes "http://h") queue asked_two first_job idle-IsTracked tt
      (step (step here (ask false (pos 50) 1 (codes "1") queue))
        (ask false (pos 55) 1 (codes "2") asked))
      ((tt, refl), refl) (inr (inl refl)) numeric

-- A mirror whose first page and page 1 are in the cache, and that has no other.
abbrev deps : Deps ℕ
deps = record {
  get = λ c k. (
    c,
    if any (text_beq k) (codes "https://h/1.jpg" ∷ codes "https://h/1_p1.jpg" ∷ [])
        then some (codes "jpeg")
        else none,
  );
  put = λ c k t b. (c, true);
  request = λ c method url range.
      (c, some (record { status = 404; content_type = codes "text/html"; body = [] }));
  key = λ url. url;
  copies = λ url. true;
  rewinds = λ url. true;
  dims = λ file. (pos 3, pos 4);
  max_file = 9;
}

abbrev mirrored : ℕ → Text → Page
mirrored n url = record { page = n; url = url; width = pos 3; height = pos 4 }

abbrev both_pages : List Page
both_pages = mirrored 0 (codes "https://h/1.jpg") ∷ mirrored 1 (codes "https://h/1_p1.jpg") ∷ []

mirror_has_two : fetch_mirror deps (codes "h") 0 (codes "1") ≡ (0, found both_pages)
unfolding fetch_mirror pixiv_relay.Recover.Sources.fetch_image pixiv_relay.Prelude.Decimal.show_ℕ
mirror_has_two = refl

mirror-StartsAtZero_example : StartsAtZero 50 both_pages
mirror-StartsAtZero_example =
    mirror-StartsAtZero deps (codes "h") 0 0 (codes "1") both_pages mirror_has_two

escapes : query_escape (codes "é /") ≡ codes "%C3%A9+%2F"
unfolding query_escape
escapes = refl
