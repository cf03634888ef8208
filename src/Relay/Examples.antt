-- ===== src/Relay/Examples.antt =====
-- The theorems on internal/relay, applied to one request and a host that answers it.
use pixiv_relay.Common.Errors.{ok}
use pixiv_relay.Prelude.Int.{pos}
use pixiv_relay.Prelude.{ℕ, ◌≡◌, ◌≤◌, refl, true, List, [], ◌∷◌, Option, some, Text, codes, length}
use pixiv_relay.Relay.Checks.{IsSafe, prepare-IsSafe}
use pixiv_relay.Relay.Service.{
  Tools, Request, Response, Upstream, replied, allowed_hosts, prepare, do_request, pass_headers,
}

abbrev tools : Tools
tools = record {
  parse_url = λ t. some (record {
    scheme = codes "https";
    host = codes "WWW.pixiv.net:443";
    hostname = codes "WWW.pixiv.net";
  });
  decode = some;
  encode = λ t. t;
  builds = λ method url. true;
  upstream = λ up.
      replied 200
        ((codes "set-cookie", codes "s") ∷ (codes "content-type", codes "text/plain") ∷ [])
        (codes "hi");
}

abbrev request : Request
request = record {
  method = codes "post";
  url = codes "https://WWW.pixiv.net:443/a";
  headers = (codes "Cookie", codes "c") ∷ (codes "Referer", codes "r") ∷ [];
  body_base64 = codes "body";
  timeout_ms = pos 90000;
}

abbrev upstream : Upstream
upstream = record {
  method = codes "POST";
  url = codes "https://WWW.pixiv.net:443/a";
  host = codes "www.pixiv.net";
  headers = (codes "user-agent", codes "PixivIOSApp/5.8.0") ∷ (codes "referer", codes "r") ∷ [];
  body = codes "body";
  timeout_ms = pos 60000;
}

prepared : prepare tools (allowed_hosts []) request ≡ ok upstream
unfolding prepare pixiv_relay.Prelude.to_upper pixiv_relay.Prelude.equal_fold allowed_hosts
    pixiv_relay.Prelude.Table.upsert pixiv_relay.Prelude.to_lower
prepared = refl

prepare-IsSafe_example : IsSafe tools (allowed_hosts []) upstream
prepare-IsSafe_example = prepare-IsSafe tools (allowed_hosts []) request upstream prepared

abbrev response : Response
response = record {
  status = 200;
  headers = (codes "content-type", codes "text/plain") ∷ [];
  body_base64 = codes "hi";
}

responds : do_request tools (allowed_hosts []) request ≡ ok response
unfolding do_request pixiv_relay.Prelude.to_upper pixiv_relay.Prelude.equal_fold allowed_hosts
    pass_headers pixiv_relay.Prelude.Table.find pixiv_relay.Prelude.to_lower
responds = refl
