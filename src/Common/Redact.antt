-- ===== src/Common/Redact.antt =====
-- internal/common/logger.go: the values that a log line does not show. An attribute holds a group of
-- attributes or any other value, of which the handler reads nothing.
use pixiv_relay.Prelude.{
  ◌≡◌, refl, ap, ◌∙◌, sym, Bool, true, false, List, [], ◌∷◌, ◌++◌, All, All-append, Text, codes,
  any, keep, keep-append, map, to_lower, text_beq, arith, Bool-cases, inl, inr, if◌then◌else◌, not,
}

mutual
  pub data LogValue : Type 0 where
    text : Text → LogValue
    group : Attrs → LogValue

  pub data Attrs : Type 0 where
    nil : Attrs
    attr : Text → LogValue → Attrs → Attrs

abbrev sensitive_keys : List Text
sensitive_keys =
    codes "authorization"
    ∷ codes "password"
    ∷ codes "refresh_token"
    ∷ codes "refreshtoken"
    ∷ codes "accesstoken"
    ∷ codes "access_token"
    ∷ codes "token"
    ∷ codes "accountkey"
    ∷ codes "account_key"
    ∷ codes "invitecode"
    ∷ codes "invite_code"
    ∷ codes "body"
    ∷ codes "bodybase64"
    ∷ []

unfoldable pub is_sensitive_key : Text → Bool
is_sensitive_key k = any (λ s. text_beq s (to_lower k)) sensitive_keys

abbrev pub redacted : Text
redacted = codes "[REDACTED]"

-- redactAttr, of the attributes of a record or a group.
unfoldable mutual
  pub redact_value : LogValue → LogValue
  redact_value (text t) = text t
  redact_value (group attrs) = group (redact_attrs attrs)

  pub redact_attrs : Attrs → Attrs
  redact_attrs nil = nil
  redact_attrs (attr k v attrs) =
      attr k (if is_sensitive_key k then text redacted else redact_value v) (redact_attrs attrs)

abbrev pub under : Text → List (List Text × Text) → List (List Text × Text)
under k = map (λ p. (k ∷ p.0, p.1))

-- What a log line shows: each value that is no group, with the keys that lead to it.
mutual
  pub leaves_of_value : LogValue → List (List Text × Text)
  leaves_of_value (text t) = ([], t) ∷ []
  leaves_of_value (group attrs) = leaves attrs

  pub leaves : Attrs → List (List Text × Text)
  leaves nil = []
  leaves (attr k v attrs) = under k (leaves_of_value v) ++ leaves attrs

abbrev pub is_sensitive : List Text × Text → Bool
is_sensitive p = any is_sensitive_key p.0

-- What a line shows below a sensitive key, and elsewhere.
abbrev pub secrets : Attrs → List (List Text × Text)
secrets attrs = keep is_sensitive (leaves attrs)

abbrev pub is_plain : List Text × Text → Bool
is_plain p = not (is_sensitive p)

abbrev pub IsBlank : List Text × Text → Type 0
IsBlank p = p.1 ≡ redacted

keep-under_plain :
    (k : Text) (ps : List (List Text × Text))
    → is_sensitive_key k ≡ false
    → (keep is_plain (under k ps) ≡ under k (keep is_plain ps))
      × (keep is_sensitive (under k ps) ≡ under k (keep is_sensitive ps))
keep-under_plain k [] e = (refl, refl)
keep-under_plain k (p ∷ ps) e = ground (arith, keep-under_plain k ps e)

keep-under_sensitive :
    (k : Text) (ps : List (List Text × Text))
    → is_sensitive_key k ≡ true
    → keep is_plain (under k ps) ≡ []
keep-under_sensitive k [] e = refl
keep-under_sensitive k (p ∷ ps) e = ground (arith, keep-under_sensitive k ps e)

under-IsBlank :
    (k : Text) (ps : List (List Text × Text)) → All IsBlank ps → All IsBlank (under k ps)
under-IsBlank k [] h = tt
under-IsBlank k (p ∷ ps) h = (h.0, under-IsBlank k ps h.1)

-- The leaves of one attribute after it went through the handler.
shown : Text → LogValue → List (List Text × Text)
unfolding redact_value
shown k v = under k (leaves_of_value (if is_sensitive_key k then text redacted else redact_value v))

shown-IsBlank :
    (k : Text) (v : LogValue)
    → All IsBlank (keep is_sensitive (leaves_of_value (redact_value v)))
    → All IsBlank (keep is_sensitive (shown k v))
unfolding shown leaves
shown-IsBlank k v h = elim (Bool-cases (is_sensitive_key k)) [
  | inl secret ↦ rw (secret, secret) (refl, tt)
  | inr plain ↦
      rw (plain, (keep-under_plain k (leaves_of_value (redact_value v)) plain).1)
        (under-IsBlank k (keep is_sensitive (leaves_of_value (redact_value v))) h)
]

shown_plain :
    (k : Text) (v : LogValue)
    → keep is_plain (leaves_of_value (redact_value v)) ≡ keep is_plain (leaves_of_value v)
    → keep is_plain (shown k v) ≡ keep is_plain (under k (leaves_of_value v))
unfolding shown leaves
shown_plain k v h = elim (Bool-cases (is_sensitive_key k)) [
  | inl secret ↦ rw (secret, secret, keep-under_sensitive k (leaves_of_value v) secret) refl
  | inr plain ↦
      rw
        (
          plain,
          (keep-under_plain k (leaves_of_value (redact_value v)) plain).0,
          (keep-under_plain k (leaves_of_value v) plain).0,
          h,
        )
        refl
]

mutual
  unfolding redact_value leaves shown

  value-IsBlank :
      (v : LogValue) → All IsBlank (keep is_sensitive (leaves_of_value (redact_value v)))
  value-IsBlank (text t) = tt
  value-IsBlank (group attrs) = attrs-IsBlank attrs

  attrs-IsBlank : (attrs : Attrs) → All IsBlank (secrets (redact_attrs attrs))
  attrs-IsBlank nil = tt
  attrs-IsBlank (attr k v attrs) =
      rw (keep-append is_sensitive (shown k v) (leaves (redact_attrs attrs))) (
        All-append IsBlank (keep is_sensitive (shown k v)) (secrets (redact_attrs attrs))
          (shown-IsBlank k v (value-IsBlank v)) (attrs-IsBlank attrs))

mutual
  unfolding redact_value leaves shown

  plain_value :
      (v : LogValue)
      → keep is_plain (leaves_of_value (redact_value v)) ≡ keep is_plain (leaves_of_value v)
  plain_value (text t) = refl
  plain_value (group attrs) = plain_attrs attrs

  plain_attrs :
      (attrs : Attrs) → keep is_plain (leaves (redact_attrs attrs)) ≡ keep is_plain (leaves attrs)
  plain_attrs nil = refl
  plain_attrs (attr k v attrs) =
      keep-append is_plain (shown k v) (leaves (redact_attrs attrs))
      ∙ ap (λ ps. ps ++ keep is_plain (leaves (redact_attrs attrs)))
          (shown_plain k v (plain_value v))
      ∙ ap (λ ps. keep is_plain (under k (leaves_of_value v)) ++ ps) (plain_attrs attrs)
      ∙ sym (keep-append is_plain (under k (leaves_of_value v)) (leaves attrs))

-- In what a log line shows, at any depth of groups, each value below a sensitive key is the word
-- [REDACTED], and the values that are below none are those that were given, in the same order.
pub redact_attrs_lem :
    (attrs : Attrs)
    → All IsBlank (secrets (redact_attrs attrs))
      × (keep is_plain (leaves (redact_attrs attrs)) ≡ keep is_plain (leaves attrs))
redact_attrs_lem attrs = (attrs-IsBlank attrs, plain_attrs attrs)
