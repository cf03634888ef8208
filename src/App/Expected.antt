-- ===== src/App/Expected.antt =====
-- The headers that answers ought to have, apart from the tests of internal/common/requestid.go and
-- internal/web/cors.go.
use mathlib.Core.Path.{subst}
use pixiv_relay.Common.Http.{Request, Header, get_header, id_of}
use pixiv_relay.Prelude.Table.{find}
use pixiv_relay.Prelude.{
  ◌≡◌, ◌≢◌, ◌⊎◌, ◌↔◌, refl, ap, sym, ◌∙◌, true, false, Elem, any, is_empty, not, ◌&&◌, Bool,
  has_prefix, text_beq_iff, List, [], ◌∷◌, Text, codes, text_beq, text_eq, Bool-cases, inl, inr,
  if◌then◌else◌, arith,
}
use pixiv_relay.Web.Cors.{is_cross_origin, is_api_path}

abbrev pub first_value : Text → List Header → Text
first_value name [] = []
first_value name ((k, v) ∷ headers) =
    let rest = first_value name headers in if text_beq k name then v else rest

abbrev pub expected_id : Text → Request → Text
expected_id fresh r = elim (first_value (codes "X-Request-Id") r.headers) [
  | [] ↦ fresh
  | c ∷ rest ↦ c ∷ rest
]

abbrev pub IsInterface : Text → Type 0
IsInterface path =
    (has_prefix (codes "/auth/") path ≡ true)
    ⊎ ((has_prefix (codes "/relay/") path ≡ true)
        ⊎ ((has_prefix (codes "/img/") path ≡ true)
            ⊎ ((has_prefix (codes "/sync/") path ≡ true)
                ⊎ ((has_prefix (codes "/recover/") path ≡ true)
                    ⊎ ((has_prefix (codes "/admin/") path ≡ true)
                        ⊎ (has_prefix (codes "/healthz") path ≡ true))))))

-- The request has an origin that is listed, and is for the interface.
abbrev pub IsNamed : List Text → Request → Type 0
IsNamed origins r =
    (first_value (codes "Origin") r.headers ≢ [])
    × Elem (first_value (codes "Origin") r.headers) origins
    × IsInterface r.path

-- What the answer's header names, in either case.
abbrev pub NamesOrigin : List Text → Request → Text → Type 0
NamesOrigin origins r named =
    (IsNamed origins r × (named ≡ first_value (codes "Origin") r.headers))
    ⊎ ((¬ IsNamed origins r) × (named ≡ []))

get_header-eq-first_value :
    (name : Text) (headers : List Header) → get_header name headers ≡ first_value name headers
unfolding get_header find
get_header-eq-first_value name [] = refl
get_header-eq-first_value name ((k, v) ∷ headers) =
    ground (arith, get_header-eq-first_value name headers)

pub id_of-eq-expected_id : (fresh : Text) (r : Request) → id_of fresh r ≡ expected_id fresh r
unfolding id_of
id_of-eq-expected_id fresh r =
    rw (get_header-eq-first_value (codes "X-Request-Id") r.headers)
      (chosen (first_value (codes "X-Request-Id") r.headers))
  where
    chosen :
        (v : Text) → (if is_empty v then fresh else v) ≡ elim v [ [] ↦ fresh | c ∷ rest ↦ c ∷ rest ]
    chosen [] = refl
    chosen (c ∷ rest) = refl

Elem-any : (t : Text) (ts : List Text) → any (λ o. text_beq o t) ts ≡ true → Elem t ts
Elem-any t [] h = absurd (cc h)
Elem-any t (o ∷ ts) h = elim (Bool-cases (text_beq o t)) [
  | inl same ↦ inl (sym ((text_beq_iff o t).0 same))
  | inr other ↦ inr (Elem-any t ts (rw other at h))
]

any-Elem : (t : Text) (ts : List Text) → Elem t ts → any (λ o. text_beq o t) ts ≡ true
any-Elem t [] h = elim h [ ]
any-Elem t (o ∷ ts) (inl same) = ground (arith, (text_beq_iff o t).1 (sym same))
any-Elem t (o ∷ ts) (inr later) = ground (arith, any-Elem t ts later)

is_api_path-IsInterface : (path : Text) → (is_api_path path ≡ true) ↔ IsInterface path
unfolding is_api_path
is_api_path-IsInterface path = ground arith

both : (a b : Bool) → (a && b) ≡ true → (a ≡ true) × (b ≡ true)
both a b h = ground (arith, h)

cross-IsNamed :
    (origins : List Text) (r : Request) → is_cross_origin origins r ≡ true → IsNamed origins r
unfolding is_cross_origin
cross-IsNamed origins r h =
    let o = get_header (codes "Origin") r.headers in
    let same = get_header-eq-first_value (codes "Origin") r.headers in
    let (full, h1) = both (not (is_empty o)) _ h in
    let (listed, api) = both (any (λ x. text_beq x o) origins) _ h1 in
    (
      λ e.
          let gone : is_empty o ≡ true = ap is_empty (same ∙ e) in
          absurd (ground (arith, gone, full)),
      subst (λ x. Elem x origins) same (Elem-any o origins listed),
      (is_api_path-IsInterface r.path).0 api,
    )

IsNamed-cross :
    (origins : List Text) (r : Request) → IsNamed origins r → is_cross_origin origins r ≡ true
unfolding is_cross_origin
IsNamed-cross origins r (full, listed, api) =
    let o = get_header (codes "Origin") r.headers in
    let same = get_header-eq-first_value (codes "Origin") r.headers in
    let there : any (λ x. text_beq x o) origins ≡ true =
      any-Elem o origins (subst (λ x. Elem x origins) (sym same) listed) in
    let full_origin : is_empty o ≡ false = not_empty o (λ e. full (sym same ∙ e)) in
    ground (arith, there, full_origin, (is_api_path-IsInterface r.path).1 api)
  where
    not_empty : (t : Text) → (t ≢ []) → is_empty t ≡ false
    not_empty [] ne = absurd (ne refl)
    not_empty (c ∷ t) ne = refl

-- What CORS names is what the specification says.
pub names :
    (origins : List Text) (r : Request)
    → NamesOrigin origins r
        (if is_cross_origin origins r then get_header (codes "Origin") r.headers else [])
names origins r = elim (Bool-cases (is_cross_origin origins r)) [
  | inl cross ↦
      rw cross
        (inl (cross-IsNamed origins r cross, get_header-eq-first_value (codes "Origin") r.headers))
  | inr own ↦
      rw own (inr ((λ n. let cross = IsNamed-cross origins r n in absurd (cc (own, cross))), refl))
]
