-- ===== src/App/Keepers.antt =====
-- Each handler keeps the headers that are not its own.
use pixiv_relay.App.Images.{HasOthers, set_all_lem, fetch_round-HasOthers}
use pixiv_relay.App.Headers.{
  IsForeign, Keeps, IsKeeper, write_json-Keeps, respond_error-Keeps, respond-Keeps,
  limited-IsKeeper,
}
use pixiv_relay.App.Member.{
  push_with, push_handler, image_answer, fetch_with, fetch_handler, recover_answer, set_all,
}
use pixiv_relay.App.Operator.{operator_only, guard_token, is_operator}
use pixiv_relay.App.Public.{address, register_with, register_handler, refresh_with}
use pixiv_relay.App.State.{State, Server, Oracle, RegisterRequest}
use pixiv_relay.Common.Errors.{Result, ok, err}
use pixiv_relay.Common.Http.{Request, Header, Handler, get_header}
use pixiv_relay.Img.Service.{Answer, served, refused}
use pixiv_relay.Prelude.{
  refl, ◌∙◌, Bool, Option, none, some, List, Text, codes, Bool-cases, inl, inr,
}
use pixiv_relay.Recover
use pixiv_relay.Sync.Store.{PushRequest}

module _ (name : Text) (f : IsForeign name) {F R B Ip : Type 0} (server : Server F R B Ip)
    (oracle : Oracle) where
  pub image_answer-Keeps :
      (r : Request) (headers : List Header) (answer : Option Answer)
      → HasOthers name f answer
      → Keeps name f headers (image_answer server oracle r headers answer)
  image_answer-Keeps r headers none h = refl
  image_answer-Keeps r headers (some (served given content)) h = set_all_lem name f given headers h
  image_answer-Keeps r headers (some (refused given e)) h =
      respond_error-Keeps name f r e (set_all given headers) ∙ set_all_lem name f given headers h

  pub fetch_with-Keeps :
      (r : Request) (headers : List Header) (s : State F R B) (url : Text) (inline : Bool)
      (host : Result Text)
      → Keeps name f headers (fetch_with server oracle r headers s url inline host).1
  fetch_with-Keeps r headers s url inline (err e) = respond_error-Keeps name f r e headers
  fetch_with-Keeps r headers s url inline (ok host) = image_answer-Keeps r headers _ (
      fetch_round-HasOthers name f oracle.get_faults oracle.no_temp oracle.commit_faults oracle.now
        s.cache s.flights (server.cache_key url) inline oracle.image)

  pub fetch-IsKeeper : IsKeeper name f (fetch_handler server oracle)
  unfolding fetch_handler
  fetch-IsKeeper r headers s = fetch_with-Keeps r headers s _ _ _

  pub push_with-Keeps :
      (r : Request) (headers : List Header) (s : State F R B) (req : Result PushRequest)
      → Keeps name f headers (push_with server oracle r headers s req).1
  push_with-Keeps r headers s (err e) = respond_error-Keeps name f r e headers
  push_with-Keeps r headers s (ok req) = respond-Keeps name f r _ _ headers

  pub push-IsKeeper : IsKeeper name f (push_handler server oracle)
  unfolding push_handler
  push-IsKeeper r headers s = push_with-Keeps r headers s _

  pub register_with-Keeps :
      (r : Request) (headers : List Header) (s : State F R B) (req : Result RegisterRequest)
      → Keeps name f headers (register_with server oracle r headers s req).1
  register_with-Keeps r headers s (err e) = respond_error-Keeps name f r e headers
  register_with-Keeps r headers s (ok req) = respond-Keeps name f r _ _ headers

  pub register-IsKeeper : IsKeeper name f (register_handler server oracle)
  unfolding register_handler
  register-IsKeeper r headers s = register_with-Keeps r headers s _

  pub refresh_with-Keeps :
      (r : Request) (headers : List Header) (s : State F R B) (token : Result Text)
      → Keeps name f headers (refresh_with server oracle r headers s token).1
  refresh_with-Keeps r headers s (err e) = respond_error-Keeps name f r e headers
  refresh_with-Keeps r headers s (ok token) = respond-Keeps name f r _ _ headers

  pub recover_answer-Keeps :
      (r : Request) (headers : List Header) (answer : Recover.Query.Answer)
      → Keeps name f headers (recover_answer server oracle r headers answer)
  recover_answer-Keeps r headers Recover.Query.gone = write_json-Keeps name f r 404 _ headers
  recover_answer-Keeps r headers (Recover.Query.recovered pages source meta) =
      write_json-Keeps name f r 200 _ headers
  recover_answer-Keeps r headers Recover.Query.wait = write_json-Keeps name f r 202 _ headers
  recover_answer-Keeps r headers (Recover.Query.refused e) = respond_error-Keeps name f r e headers

  pub guarded-IsKeeper :
      (next : Handler (State F R B))
      → IsKeeper name f next
      → IsKeeper name f (guard_token server oracle next)
  guarded-IsKeeper next k r headers s =
      elim (Bool-cases
        (is_operator server.admin_token (get_header (codes "Authorization") r.headers))) [
          | inl yes' ↦ rw yes' (k r headers s)
          | inr no' ↦ rw no' (respond_error-Keeps name f r _ headers)
        ]

  pub operator_only-IsKeeper :
      (next : Handler (State F R B))
      → IsKeeper name f next
      → IsKeeper name f (operator_only server oracle next)
  unfolding operator_only
  operator_only-IsKeeper next k =
      limited-IsKeeper name f server.buckets (λ s. s.admin_limiter)
        (λ l s. record s { admin_limiter = l }) oracle.now (address server)
        (guard_token server oracle next) (guarded-IsKeeper next k)
