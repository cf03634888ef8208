-- ===== src/App/Steps.antt =====
-- What holds of the state behind every handler holds behind the server: the limits, the chain of
-- handlers and the routes change nothing themselves but the limiters and the log.
use pixiv_relay.App.Member.{write_limited, img_limited, account_key}
use pixiv_relay.App.Mux.{Route, handle, dispatch, mux, serve}
use pixiv_relay.App.Operator.{is_operator, operator_only, guard_token}
use pixiv_relay.App.Public.{address, register_handler, register_route}
use pixiv_relay.App.State.{State, Server, Oracle, write_log}
use pixiv_relay.Common.Redact.{Attrs}
use pixiv_relay.Common.Http.{
  Request, Header, Handler, get_header, request_id, access_log, logged, log_line, Body, json, plain,
  aborted, waits, pass_limit, limited, tagged, set_header, request_id_header, id_of,
}
use pixiv_relay.Common.Limits.{Buckets, Limiter, allow}
use pixiv_relay.Prelude.Int.{ℤ}
use pixiv_relay.Prelude.{
  ◌≡◌, Bool, true, false, Option, none, some, List, Text, codes, Bool-cases, inl, inr, text_beq,
}
use pixiv_relay.Web.Cors.{cors, is_cross_origin, is_preflight}

abbrev pub authorization : Request → Text
authorization r = get_header (codes "Authorization") r.headers

module _ {F R B : Type 0} (P : State F R B → Type 0) where
  module _ (lib : Buckets F R B) (limiter : State F R B → Limiter R B)
      (with_limiter : Limiter R B → State F R B → State F R B) where
    pass_limit_lem :
        (t : State F R B) (next : Handler (State F R B)) (r : Request) (headers : List Header)
        (v : Bool × ℤ)
        → P (next r headers t).0
        → P t
        → P (pass_limit lib limiter with_limiter next r headers t v).0
    pass_limit_lem t next r headers (true, retry) passed same = passed
    pass_limit_lem t next r headers (false, retry) passed same = same

    pub limited_lem :
        (s : State F R B) (now : ℤ) (key : Request → Text) (next : Handler (State F R B))
        (r : Request) (headers : List Header)
        → ((l : Limiter R B) → P (with_limiter l s))
        → ((l : Limiter R B) → P (next r headers (with_limiter l s)).0)
        → P (limited lib limiter with_limiter now key next r headers s).0
    unfolding limited
    limited_lem s now key next r headers same passed =
        pass_limit_lem _ next r headers (allow lib now (key r) (limiter s)).1 (passed _) (same _)

  module _ {Ip : Type 0} (server : Server F R B Ip) (oracle : Oracle) where
    pub operator_only_lem :
        (next : Handler (State F R B)) (r : Request) (headers : List Header) (s : State F R B)
        → is_operator server.admin_token (authorization r) ≡ false
        → ((l : Limiter R B) → P (record s { admin_limiter = l }))
        → P (operator_only server oracle next r headers s).0
    unfolding operator_only
    operator_only_lem next r headers s denied same =
        limited_lem server.buckets (λ s. s.admin_limiter) (λ l s. record s { admin_limiter = l }) s
          oracle.now (address server) (guard_token server oracle next) r headers same
          (λ l. rw denied (same l))

    -- The route of register, if its handler keeps what holds.
    pub register_route_lem :
        (r : Request) (headers : List Header) (s : State F R B)
        → ((l : Limiter R B) → P (record s { register_limiter = l }))
        → ((l : Limiter R B)
            → P (register_handler server oracle r headers (record s { register_limiter = l })).0)
        → P (register_route server oracle r headers s).0
    unfolding register_route
    register_route_lem r headers s =
        limited_lem server.buckets (λ s. s.register_limiter)
          (λ l s. record s { register_limiter = l }) s oracle.now (address server)
          (register_handler server oracle) r headers

    pub write_limited_lem :
        (next : Handler (State F R B)) (r : Request) (headers : List Header) (s : State F R B)
        → ((l : Limiter R B) → P (record s { write_limiter = l }))
        → ((l : Limiter R B) → P (next r headers (record s { write_limiter = l })).0)
        → P (write_limited server oracle next r headers s).0
    unfolding write_limited
    write_limited_lem next r headers s =
        limited_lem server.buckets (λ s. s.write_limiter) (λ l s. record s { write_limiter = l }) s
          oracle.now account_key next r headers

    pub img_limited_lem :
        (next : Handler (State F R B)) (r : Request) (headers : List Header) (s : State F R B)
        → ((l : Limiter R B) → P (record s { img_limiter = l }))
        → ((l : Limiter R B) → P (next r headers (record s { img_limiter = l })).0)
        → P (img_limited server oracle next r headers s).0
    unfolding img_limited
    img_limited_lem next r headers s =
        limited_lem server.buckets (λ s. s.img_limiter) (λ l s. record s { img_limiter = l }) s
          oracle.now account_key next r headers

    module _ (r : Request) (s : State F R B) (base : P s)
        (step : (route : Route) (part : Text) (headers : List Header)
          → P (handle server oracle route part r headers s).0) where
      dispatch_lem :
          (o : Option (Route × Text)) (headers : List Header)
          → P (dispatch server oracle o r headers s).0
      dispatch_lem none headers = base
      dispatch_lem (some (route, part)) headers = step route part headers

      mux_lem : (headers : List Header) → P (mux server oracle r headers s).0
      unfolding mux
      mux_lem headers = elim (Bool-cases (text_beq (server.canonical r.path) r.path)) [
        | inl same ↦ rw same (dispatch_lem _ headers)
        | inr other ↦ rw other base
      ]

      cors_lem : (headers : List Header) → P (cors server.origins (mux server oracle) r headers s).0
      unfolding cors
      cors_lem headers = elim (Bool-cases (is_cross_origin server.origins r)) [
        | inl cross ↦ elim (Bool-cases (is_preflight r)) [
          | inl asks ↦ rw (cross, asks) base
          | inr other ↦ rw (cross, other) (mux_lem _)
        ]
        | inr own ↦ rw own (mux_lem headers)
      ]

    logged_lem :
        (line : Attrs) (b : Body) (t : State F R B)
        → P t
        → ((line : Attrs) (t : State F R B) → P t → P (write_log line t))
        → P (logged write_log line b t)
    logged_lem line (json fields) t base log = log line t base
    logged_lem line (plain content) t base log = log line t base
    logged_lem line aborted t base log = base
    logged_lem line waits t base log = base

    pub serve_lem :
        (r : Request) (headers : List Header) (s : State F R B)
        → P s
        → ((line : Attrs) (t : State F R B) → P t → P (write_log line t))
        → ((route : Route) (part : Text) (headers : List Header)
            → P (handle server oracle route part (tagged oracle.fresh_id r) headers s).0)
        → P (serve server oracle r headers s).0
    unfolding serve request_id access_log
    serve_lem r headers s base log step =
        let given = set_header request_id_header (id_of oracle.fresh_id r) headers in
        let (after, response) =
          cors server.origins (mux server oracle) (tagged oracle.fresh_id r) given s in
        logged_lem (log_line (tagged oracle.fresh_id r) response.status oracle.ms) response.body
          after (cors_lem (tagged oracle.fresh_id r) s base step given) log
