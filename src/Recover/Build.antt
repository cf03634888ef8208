-- ===== src/Recover/Build.antt =====
-- The sources of a configuration, NewService and its TTLs: Build of internal/recover/sources/sources.go,
-- and internal/recover/service.go.
use pixiv_relay.Admin.Texts.{trim_space}
use pixiv_relay.Common.Errors.{Result, ok, internal, refuse, ◌>>◌}
use pixiv_relay.Prelude.Int.{ℤ, pos, negsuc, wrap64, leb_ℤ}
use pixiv_relay.Prelude.{
  ℕ, ◌-◌, ◌*◌, suc, Bool, not, List, [], ◌∷◌, Option, none, some, Text, codes, any, keep, map,
  is_empty, text_beq, to_lower, cut, if◌then◌else◌,
}
use pixiv_relay.Recover.Queue.{Queue, set_ttls}

-- What an entry of RECOVER_SOURCES asks for.
pub data Wanted : Type 0 where
  from_snapshot : Wanted
  from_mirror : Text → Text → Wanted

abbrev pub or_host : Text → Text → Text
or_host default host = if is_empty host then default else host

-- One round of the loop of Build, of the name and the host of an entry; none is an entry left out.
unfoldable pub wanted_of : Text → Text → Option Wanted
wanted_of name host =
    let known = to_lower (trim_space name) in
    if text_beq known (codes "snapshot")
    then some from_snapshot
    else if text_beq known (codes "pixiv_cat")
    then some (from_mirror (codes "pixiv_cat") (or_host (codes "i.pixiv.cat") host))
    else if text_beq known (codes "pixiv_re")
    then some (from_mirror (codes "pixiv_re") (or_host (codes "i.pixiv.re") host))
    else none

abbrev pub cut_entry : Text → Text × Text
cut_entry entry = elim (cut b'=' entry) [ none ↦ (entry, []) | some parts ↦ parts ]

abbrev pub put_wanted : Option Wanted → List Wanted → List Wanted
put_wanted none ws = ws
put_wanted (some w) ws = w ∷ ws

unfoldable pub build : List Text → List Wanted
unfolding wanted_of
build [] = []
build (entry ∷ names) =
    let (name, host) = cut_entry entry in put_wanted (wanted_of name host) (build names)

abbrev pub hosts_of : List Wanted → List Text
hosts_of [] = []
hosts_of (from_snapshot ∷ ws) = hosts_of ws
hosts_of (from_mirror name host ∷ ws) = host ∷ hosts_of ws

-- The mirrors that NewService warns of: images from them cannot be fetched.
unfoldable pub unfetchable : List Text → List Text → List Text
unfetchable extra_hosts hosts =
    let allowed = map to_lower extra_hosts in
    keep (λ h. not (any (λ a. text_beq a (to_lower h)) allowed)) hosts

-- A number of days in milliseconds, as an int64.
abbrev pub times : ℕ → ℤ → ℤ
times k (pos n) = pos (k * n)
times k (negsuc n) = negsuc (k * suc n - 1)

unfoldable pub days_in_ms : ℤ → ℤ
days_in_ms days = wrap64 (times (24 * 3600 * 1000) days)

unfoldable pub set_ttl_days : ℤ → ℤ → Queue → Queue
unfolding days_in_ms
set_ttl_days days negative_days q = set_ttls (days_in_ms days) (days_in_ms negative_days) q

abbrev pub days_or : ℤ → ℤ → ℤ
days_or default days = if leb_ℤ days (pos 0) then default else days

-- NewService up to its queue: the sources, the mirrors that it warns of, and the queue that starts
-- empty, over the rows of the table.
unfoldable pub new_service :
    Bool → Text → List Text → List Text → ℤ → ℤ → Queue → Result (List Wanted × (List Text × Queue))
unfolding build unfetchable set_ttl_days
new_service mkdir_fails tmp_dir names extra_hosts days negative_days q = do
  refuse (is_empty tmp_dir) (internal (codes "recover: TmpDir is required"))
  refuse mkdir_fails (internal (codes "recover: mkdir tmp"))
  let wanted = build names
  ok (
    wanted,
    (
      unfetchable extra_hosts (hosts_of wanted),
      set_ttl_days (days_or (pos 90) days) (days_or (pos 7) negative_days)
          (record q { inflight = []; working = []; done = [] }),
    ),
  )
