-- ===== src/App/Public.antt =====
-- The handlers that need no token: healthz of app.go, and internal/auth/routes.go.
use pixiv_relay.App.Payloads.{token_payload}
use pixiv_relay.App.State.{State, Server, Oracle, RegisterRequest}
use pixiv_relay.Auth.Store.{register, refresh_tokens}
use pixiv_relay.Common.Errors.{Result, ok, err, Error, ◌>>=◌, ◌>>◌}
use pixiv_relay.Common.Http.{
  Request, Response, Header, Handler, get_header, object, write_json, respond_error, respond,
  decode_json, limited,
}
use pixiv_relay.Common.Limits.{client_ip}
use pixiv_relay.Common.Paging.{required}
use pixiv_relay.Prelude.{List, [], ◌∷◌, Option, none, some, Text, codes}
use pixiv_relay.Sync.Json.{str, obj}

-- A required field, as a step of a handler.
abbrev or_continue : Option Error → Result (Unit {0})
or_continue none = ok tt
or_continue (some e) = err e

unfoldable pub need : Text → Text → Result (Unit {0})
unfolding required
need field value = or_continue (required field value)

module _ {F R B Ip : Type 0} (server : Server F R B Ip) where
  -- The key of the limits by address.
  unfoldable pub address : Request → Text
  unfolding client_ip get_header
  address r =
      client_ip server.net server.trusted r.remote (get_header (codes "X-Forwarded-For") r.headers)
        (get_header (codes "X-Real-Ip") r.headers)

  unfoldable pub healthz : Handler (State F R B)
  unfolding write_json
  healthz r headers s =
      (s, write_json r 200 (obj (object ((codes "status", str (codes "ok")) ∷ []))) headers)

  module _ (oracle : Oracle) where
    abbrev pub register_with :
        Request → List Header → State F R B → Result RegisterRequest → State F R B × Response
    register_with r headers s (err e) = (s, respond_error r e headers)
    register_with r headers s (ok req) =
        let (db, pair) =
          register oracle.auth s.invites s.db req.device_name req.invite_code req.account_key in
        (record s { db = db }, respond r token_payload pair headers)

    unfoldable pub register_handler : Handler (State F R B)
    unfolding decode_json need register respond
    register_handler r headers s = register_with r headers s (do
      req ← decode_json server.decoders.register r.body
      need (codes "deviceName") req.device_name
      ok req)

    -- The route of register: its limit by address is before the handler.
    unfoldable pub register_route : Handler (State F R B)
    unfolding limited register_handler address
    register_route =
        limited server.buckets (λ s. s.register_limiter) (λ l s. record s { register_limiter = l })
          oracle.now address register_handler

    abbrev pub refresh_with :
        Request → List Header → State F R B → Result Text → State F R B × Response
    refresh_with r headers s (err e) = (s, respond_error r e headers)
    refresh_with r headers s (ok token) =
        let (db, pair) = refresh_tokens oracle.auth s.db token in
        (record s { db = db }, respond r token_payload pair headers)

    unfoldable pub refresh_route : Handler (State F R B)
    unfolding decode_json need refresh_tokens respond
    refresh_route r headers s = refresh_with r headers s (do
      token ← decode_json server.decoders.refresh r.body
      need (codes "refreshToken") token
      ok token)
