-- ===== src/App/Payloads.antt =====
-- The JSON of the answers, by the field names of the response types in internal.
use pixiv_relay.Admin.Accounts.{AccountItem}
use pixiv_relay.Admin.Settings.{
  Setting, int, float, string, Origin, db, env, default, Key, key_name, all_keys,
}
use pixiv_relay.Auth.Store.{TokenPair, Device}
use pixiv_relay.Common.Http.{object}
use pixiv_relay.Prelude.Decimal.{show_ℕ, format_int}
use pixiv_relay.Prelude.Int.{ℤ}
use pixiv_relay.Prelude.{
  ℕ, List, [], ◌∷◌, ◌++◌, Option, none, some, Text, codes, is_empty, if◌then◌else◌,
}
use pixiv_relay.Recover.Sources.{Page}
use pixiv_relay.Relay
use pixiv_relay.Sync.Json.{Value, null, bool, num, str, arr, obj, Items, nil, cons}
use pixiv_relay.Sync.Pull.{PullItem, PullResponse}

abbrev pub natural : ℕ → Value
natural n = num (show_ℕ n)

abbrev pub integer : ℤ → Value
integer z = num (format_int z)

abbrev pub array {ℓ} : {A : Type ℓ} → (A → Value) → List A → Items
array f [] = nil
array f (x ∷ xs) = cons (f x) (array f xs)

abbrev capabilities : List Text
capabilities = codes "relay" ∷ (codes "img" ∷ (codes "sync" ∷ (codes "recover" ∷ [])))

-- `accountKey` is left out where it is empty.
abbrev key_field : Text → List (Text × Value)
key_field key = if is_empty key then [] else (codes "accountKey", str key) ∷ []

unfoldable pub token_payload : TokenPair → Value
token_payload p = obj (
    object (
      (codes "accessToken", str p.access_token)
      ∷ ((codes "refreshToken", str p.refresh_token)
          ∷ ((codes "expiresIn", natural p.expires_in)
              ∷ (key_field p.account_key
                  ++ ((codes "serverVersion", str (codes "1.1.0"))
                      ∷ ((codes "capabilities", arr (array str capabilities)) ∷ [])))))))

unfoldable pub push_payload : ℕ × Text → Value
push_payload (accepted, token) = obj (
    object (
      (codes "accepted", natural accepted)
      ∷ ((codes "syncToken", str token) ∷ ((codes "conflicts", arr nil) ∷ []))))

-- json.RawMessage: the stored text is JSON, as Push has checked.
abbrev raw_value : Option Value → Value
raw_value none = null
raw_value (some v) = v

unfoldable pub pull_payload : (Text → Option Value) → PullResponse → Value
pull_payload unmarshal p = obj (
    object (
      (
        codes "items",
        arr (
            array
              (λ (it : PullItem). obj (
                object (
                  (codes "key", str it.key)
                  ∷ ((codes "data", raw_value (unmarshal it.data_text))
                      ∷ ((codes "updatedAt", integer it.updated_at)
                          ∷ ((codes "deleted", bool it.deleted) ∷ []))))))
              p.items),
      )
      ∷ ((codes "syncToken", str p.sync_token) ∷ ((codes "hasMore", bool p.has_more) ∷ []))))

abbrev headers_of : List (Text × Text) → List (Text × Value)
headers_of [] = []
headers_of ((k, v) ∷ hs) = (k, str v) ∷ headers_of hs

unfoldable pub relay_payload : Relay.Service.Response → Value
relay_payload p = obj (
    object (
      (codes "status", natural p.status)
      ∷ ((codes "headers", obj (object (headers_of p.headers)))
          ∷ ((codes "bodyBase64", str p.body_base64) ∷ []))))

unfoldable pub page_payload : Page → Value
page_payload p = obj (
    object (
      (codes "page", natural p.page)
      ∷ ((codes "url", str p.url)
          ∷ ((codes "width", integer p.width) ∷ ((codes "height", integer p.height) ∷ [])))))

unfoldable pub account_payload : List AccountItem × Text → Value
account_payload (items, next) = obj (
    object (
      (
        codes "items",
        arr (
            array
              (λ (it : AccountItem). obj (
                object (
                  (codes "id", natural it.id)
                  ∷ ((codes "createdAt", integer it.created_at)
                      ∷ ((codes "deviceCount", natural it.device_count)
                          ∷ ((codes "syncEntryCount", natural it.sync_entry_count) ∷ []))))))
              items),
      )
      ∷ ((codes "nextCursor", str next) ∷ [])))

unfoldable pub devices_payload : List Device → Value
devices_payload items = obj (
    object (
      (
        codes "items",
        arr (
            array
              (λ (d : Device). obj (
                object (
                  (codes "id", natural d.id)
                  ∷ ((codes "deviceName", str d.device_name)
                      ∷ ((codes "createdAt", integer d.created_at)
                          ∷ ((codes "accessExpiresAt", integer d.access_expires_at)
                              ∷ ((codes "refreshExpiresAt", integer d.refresh_expires_at)
                                  ∷ [])))))))
              items),
      )
      ∷ []))

-- A float is shown by an argument.
abbrev setting_value : {F : Type 0} → (F → Text) → Setting F → Value
setting_value show (int n) = integer n
setting_value show (float x) = num (show x)
setting_value show (string t) = str t

abbrev origin_name : Origin → Text
origin_name db = codes "db"
origin_name env = codes "env"
origin_name default = codes "default"

module _ {F : Type 0} (show : F → Text) (resolved : Key → Setting F × Origin) where
  setting_fields : List Key → List (Text × Value)
  setting_fields [] = []
  setting_fields (k ∷ ks) =
      (
        key_name k,
        obj (
            object (
              (codes "value", setting_value show (resolved k).0)
              ∷ ((codes "source", str (origin_name (resolved k).1)) ∷ []))),
      )
      ∷ setting_fields ks

  unfoldable pub settings_payload : Value
  unfolding setting_fields
  settings_payload = obj (object (setting_fields all_keys))
