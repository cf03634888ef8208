-- ===== src/Sync/Store.antt =====
-- The tables of migration 0003 and the texts of requests, for the operations of
-- internal/sync/service.go.
use pixiv_relay.Common.Errors.{
  Result, ok, err, Error, bad_request, new_error, api, refuse, ◌>>=◌, ◌>>◌,
}
use pixiv_relay.Prelude.Int.{ℤ, pos, sub64, ltb_ℤ}
use pixiv_relay.Prelude.{
  ℕ, ◌*◌, Bool, ◌&&◌, not, List, [], ◌∷◌, Option, none, some, Text, codes, ltb, length, text_beq,
  any, is_empty, map, if◌then◌else◌, text_eq, nat_eq,
}
use pixiv_relay.Sync.Json.{Value, obj, contains_sensitive_field, validate_bookmark_snapshot}
use pixiv_relay.Sync.Token.{TokenStore, TokenRow, load, current, parse_token}

pub record Entry : Type 0 where
  pub account : ℕ
  pub domain : Text
  pub key : Text
  pub data_text : Text
  pub updated_at : ℤ
  pub deleted : Bool
  pub seq : ℤ

-- PRIMARY KEY (account_id, domain, "key")
abbrev pub entry_key : Entry → ℕ × (Text × Text)
entry_key e = (e.account, (e.domain, e.key))

pub record DomainRow : Type 0 where
  pub account : ℕ
  pub domain : Text
  pub sync_token : Text
  pub latest_updated_at : ℤ

abbrev pub domain_key : DomainRow → ℕ × Text
domain_key d = (d.account, d.domain)

pub record Service : Type 0 where
  pub entries : List Entry
  pub domains : List DomainRow
  pub tokens : TokenStore

abbrev pub token_row : DomainRow → TokenRow
token_row d = record { account = d.account; domain = d.domain; sync_token = d.sync_token }

-- NewService: the cursors are those of the table.
abbrev pub load_service : List Entry → List DomainRow → Service
load_service entries domains = record {
  entries = entries;
  domains = domains;
  tokens = load [] (map token_row domains);
}

pub record PushItem : Type 0 where
  pub key : Text
  pub raw : Text
  pub updated_at : ℤ
  pub deleted : Bool

pub record PushRequest : Type 0 where
  pub domain : Text
  pub base_token : Text
  pub items : List PushItem

-- 90 days in milliseconds.
abbrev pub tombstone_retention_ms : ℤ
tombstone_retention_ms = pos (90 * 24 * 3600 * 1000)

abbrev pub max_push_items : ℕ
max_push_items = 500

abbrev pub bookmark_snapshot : Text
bookmark_snapshot = codes "bookmark_snapshot"

abbrev pub valid_domains : List Text
valid_domains =
    codes "history"
    ∷ codes "search_history"
    ∷ bookmark_snapshot
    ∷ codes "mute"
    ∷ codes "exif_config"
    ∷ codes "settings"
    ∷ []

unfoldable pub valid_domain : Text → Bool
valid_domain d = any (λ v. text_beq v d) valid_domains

-- `now - ms > tombstoneRetentionMs`
unfoldable pub is_beyond_retention : ℤ → ℤ → Bool
is_beyond_retention now ms = ltb_ℤ tombstone_retention_ms (sub64 now ms)

abbrev pub sync_full_required : Text → Error
sync_full_required msg = api (new_error 409 (codes "SYNC_FULL_REQUIRED") msg)

unfoldable pub normalize : Text → Text
normalize raw =
    if is_empty raw then codes "{}" else if text_beq raw (codes "null") then codes "{}" else raw

-- json.Unmarshal into `any`; `none` is an error.
module _ (unmarshal : Text → Option Value) where
  unfoldable pub check_object : Text → PushItem → Option Value → Result PushItem
  check_object domain it none = err (bad_request (codes "items[].data must be valid JSON"))
  check_object domain it (some (obj m)) = do
    refuse (contains_sensitive_field (obj m)) (
        api (
          new_error 400 (codes "SENSITIVE_FIELD_REJECTED")
            (codes "data contains sensitive field name (*token*)")))
    refuse
        (text_beq domain bookmark_snapshot
          && (not it.deleted && not (validate_bookmark_snapshot m)))
        (bad_request
          (codes "invalid bookmark_snapshot: illustId required, imageUrls must be string array"))
    ok (record it { raw = normalize it.raw })
  check_object domain it (some _) = err (bad_request (codes "items[].data must be a JSON object"))

  unfoldable pub validate_item : Text → PushItem → Result PushItem
  unfolding check_object
  validate_item domain it =
      if is_empty it.key
      then err (bad_request (codes "missing field: items[].key"))
      else check_object domain it (unmarshal (normalize it.raw))

  unfoldable pub validate_items : Text → List PushItem → Result (List PushItem)
  unfolding validate_item
  validate_items domain [] = ok []
  validate_items domain (it ∷ items) = do
    it' ← validate_item domain it
    items' ← validate_items domain items
    ok (it' ∷ items')

  -- The token of the request is empty, current, or young enough.
  unfoldable pub check_base_token : Text → Text → ℤ → Result (Unit {0})
  check_base_token base cur now =
      if is_empty base
      then ok tt
      else if text_beq base cur
      then ok tt
      else elim (parse_token base) [
        | none ↦ err (bad_request (codes "invalid baseToken"))
        | some ms ↦
            refuse (is_beyond_retention now ms) (
              sync_full_required (codes "base token beyond retention window; full resync required"))
      ]

  -- Push up to the point where it takes the lock: the items to merge, or the refusal.
  unfoldable pub check_push : Service → ℕ → PushRequest → ℤ → Result (List PushItem)
  unfolding validate_items check_base_token
  check_push s account req now = do
    refuse (not (valid_domain req.domain)) (bad_request (codes "unknown domain"))
    refuse (ltb max_push_items (length req.items))
        (bad_request (codes "too many items: max 500 per push"))
    items ← validate_items req.domain req.items
    check_base_token req.base_token (current s.tokens account req.domain) now
    ok items
