-- ===== src/App/Operator.antt =====
-- The handlers for the operator: internal/admin/middleware.go and routes.go, and applyAll of
-- settings.go.
use pixiv_relay.Admin.Settings.{
  Key, cache_max_bytes, cache_high_watermark, recover_ttl_days, recover_negative_ttl_days,
  rate_write_per_min, rate_img_per_min, invite_codes, Setting, int, float, string, Origin, resolve,
  validate_patch, persist_settings,
}
use pixiv_relay.Admin.Texts.{csv_to_list}
use pixiv_relay.App.Payloads.{settings_payload}
use pixiv_relay.App.Public.{address}
use pixiv_relay.App.State.{State, Server, Oracle}
use pixiv_relay.Cache.Store.{set_limits}
use pixiv_relay.Common.Errors.{Result, ok, err, bad_request, unauthorized, ◌>>=◌}
use pixiv_relay.Common.Http.{
  Request, Response, Header, Handler, get_header, object, write_json, respond_error, decode_json,
  limited,
}
use pixiv_relay.Common.Limits.{set_rate}
use pixiv_relay.Prelude.Int.{ℤ, pos}
use pixiv_relay.Prelude.{
  suc, Bool, false, ◌&&◌, List, [], ◌∷◌, ◌++◌, Option, none, some, Text, codes, cut, equal_fold,
  text_beq, if◌then◌else◌,
}
use pixiv_relay.Recover.Build.{set_ttl_days}
use pixiv_relay.Sync.Json.{Value, null, bool, num, str, arr, obj}

-- The check of the token, without its constant time.
unfoldable pub is_operator : Text → Text → Bool
is_operator admin_token header = elim (cut b' ' header) [
  | none ↦ false
  | some (scheme, token) ↦ equal_fold scheme (codes "Bearer") && text_beq token admin_token
]

-- The text of a value of a patch: a number's or a string's. A null leaves the empty text of
-- json.Number.
unfoldable pub patch_text : Value → Option Text
patch_text (num n) = some n
patch_text (str t) = some t
patch_text null = some []
patch_text (bool b) = none
patch_text (arr items) = none
patch_text (obj fields) = none

-- The loop of patchSettingsHandler.
unfoldable pub patch_texts : List (Text × Value) → Result (List (Text × Text))
unfolding patch_text
patch_texts [] = ok []
patch_texts ((key, v) ∷ body) = elim (patch_text v) [
  | none ↦
      err (
        bad_request (codes "invalid value for " ++ (key ++ codes ": must be a number or a string")))
  | some t ↦ patch_texts body >>= λ rest. ok ((key, t) ∷ rest)
]

-- The type assertions of applyAll, which panic on a value of another type.
module _ {F : Type 0} where
  abbrev pub int_of : Setting F → ℤ
  int_of (int n) = n
  int_of _ = pos 0

  abbrev pub float_of : F → Setting F → F
  float_of other (float x) = x
  float_of other _ = other

  abbrev pub text_of : Setting F → Text
  text_of (string t) = t
  text_of _ = []

module _ {F R B Ip : Type 0} (server : Server F R B Ip) where
  -- applyAll: the settings in force are handed to the parts.
  unfoldable pub apply_all : (Key → Setting F × Origin) → State F R B → State F R B
  unfolding set_limits set_ttl_days set_rate csv_to_list
  apply_all m s = record s {
    cache =
        set_limits (int_of (m cache_max_bytes).0)
          (float_of server.nine_tenths (m cache_high_watermark).0) s.cache;
    queue =
        set_ttl_days (int_of (m recover_ttl_days).0) (int_of (m recover_negative_ttl_days).0)
          s.queue;
    write_limiter =
        set_rate server.buckets (server.float_of_int (int_of (m rate_write_per_min).0)) 10
          s.write_limiter;
    img_limiter =
        set_rate server.buckets (server.float_of_int (int_of (m rate_img_per_min).0)) 30
          s.img_limiter;
    invites = csv_to_list (text_of (m invite_codes).0);
  }

  module _ (oracle : Oracle) where
    -- resolveAll.
    unfoldable pub resolve_all : State F R B → Key → Setting F × Origin
    unfolding resolve
    resolve_all s key =
        resolve server.parse_float server.is_outside server.nine_tenths (oracle.read_fails key)
          server.env s.settings key

    abbrev pub guard_token : Handler (State F R B) → Handler (State F R B)
    guard_token next r headers s =
        if is_operator server.admin_token (get_header (codes "Authorization") r.headers)
        then next r headers s
        else (s, respond_error r (unauthorized (codes "invalid admin token")) headers)

    -- Wrap of internal/admin/middleware.go.
    unfoldable pub operator_only : Handler (State F R B) → Handler (State F R B)
    unfolding limited is_operator get_header address
    operator_only next =
        limited server.buckets (λ s. s.admin_limiter) (λ l s. record s { admin_limiter = l })
          oracle.now (address server) (guard_token next)

    abbrev pub settings_answer : Request → List Header → State F R B → Response
    settings_answer r headers s =
        write_json r 200
          (obj
            (object ((codes "settings", settings_payload server.show_float (resolve_all s)) ∷ [])))
          headers

    unfoldable pub get_settings_handler : Handler (State F R B)
    unfolding resolve_all write_json settings_payload
    get_settings_handler r headers s = (s, settings_answer r headers s)

    abbrev pub patched :
        Request → List Header → State F R B → Result (Unit {0}) → State F R B × Response
    patched r headers s (err e) = (s, respond_error r e headers)
    patched r headers s (ok done) =
        let applied = apply_all (resolve_all s) s in (applied, settings_answer r headers applied)

    abbrev pub patch_with :
        Request → List Header → State F R B → Result (List (Text × Text)) → State F R B × Response
    patch_with r headers s (err e) = (s, respond_error r e headers)
    patch_with r headers s (ok kv) =
        let (rows, result) =
          persist_settings (oracle.statement_fails 0) (λ i. oracle.statement_fails (suc (suc i)))
            (oracle.statement_fails 1) oracle.now kv s.settings in
        patched r headers (record s { settings = rows }) result

    unfoldable pub patch_settings_handler : Handler (State F R B)
    unfolding decode_json patch_texts validate_patch persist_settings apply_all resolve_all
    patch_settings_handler r headers s = patch_with r headers s (do
      body ← decode_json server.decoders.patch r.body
      patch ← patch_texts body
      validate_patch server.parse_float server.is_outside server.nine_tenths patch)
