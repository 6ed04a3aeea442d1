-- ===== src/HttpServer/Auth.antt =====
-- internal/adapter/httpserver/auth.go: passwords, session values, bearer tokens and the guards of the
-- admin interface. The hashes, base64, the printing and parsing of numbers and JSON are parameters.
-- Times are nanoseconds since the epoch.
pub mod Splitting
pub mod Sessions
pub mod Tokens
pub mod Passwords
use ai_cv_evaluator.Base.{
  ℕ, ◌+◌, ◌-◌, ◌*◌, ◌/◌, min, ap, Bool, true, false, not, ◌&&◌, ◌||◌, Option, none, some, List, [],
  ◌∷◌, ◌++◌, ltb, ◌==◌, if◌then◌else◌, length, drop, half, inc, dec, sle, time_add, second, Bytes,
  codes, to_lower, has_prefix, trim_space, bytes_eq,
}
use ai_cv_evaluator.Domain.{Error, plain_error, Result, ok, err}

-- `strings.Split` at one byte.
abbrev pub add_first : ℕ → List Bytes → List Bytes
add_first c [] = (c ∷ []) ∷ []
add_first c (x ∷ xs) = (c ∷ x) ∷ xs

unfoldable pub split : ℕ → Bytes → List Bytes
split sep [] = [] ∷ []
split sep (c ∷ s) = if c == sep then [] ∷ split sep s else add_first c (split sep s)

abbrev pub dot : ℕ
dot = 46

abbrev pub colon : ℕ
colon = 58

abbrev pub dollar : ℕ
dollar = 36

abbrev pub failure {ℓ} : {A : Type ℓ} → Bytes → Result A
failure text = err (plain_error text)

-- `crypto` and `encoding`: a keyed hash, two encodings with their decodings, decimal numbers.
pub record Codecs : Type 0 where
  pub mac : Bytes → Bytes → Bytes
  pub encode : Bytes → Bytes
  pub decode : Bytes → Option Bytes
  pub print_int : ℕ → Bytes
  pub parse_int : Bytes → Option ℕ

pub record SessionData : Type 0 where
  pub username : Bytes
  pub login_time : ℕ
  pub expires_at : ℕ

pub record Claims : Type 0 where
  pub sub : Bytes
  pub iat : ℕ
  pub exp : ℕ

-- What `json.Unmarshal` gives: the expiry as an int64, when it is a number, and the subject, empty
-- when it is no text.
pub data Expiry : Type 0 where
  absent wrong_type : Expiry
  at : ℕ → Expiry

pub record Decoded : Type 0 where
  pub sub : Bytes
  pub exp : Expiry

abbrev pub is_ok : Result Bytes → Bool
is_ok (ok sub) = true
is_ok (err e) = false

-- The two headers of a proxy that signs users on, and the `Authorization` header.
pub record Headers : Type 0 where
  pub auth_request_user : Bytes
  pub forwarded_user : Bytes
  pub authorization : Bytes

unfoldable pub get_sso_username_from_headers : Headers → Bytes
get_sso_username_from_headers h =
    let user = trim_space h.auth_request_user in
    if not (length user == 0) then user else trim_space h.forwarded_user

unfoldable pub bearer_token : Bytes → Option Bytes
bearer_token header =
    let authz = trim_space header in
    if has_prefix (to_lower authz) (codes "bearer ") then some (trim_space (drop 7 authz)) else none

module _ (codecs : Codecs) (secret : Bytes) where
  open codecs use {mac, encode, decode, print_int, parse_int}

  unfoldable pub create_session : Bytes → ℕ → Bytes
  create_session username now =
      let login = now / second in
      let payload = username ++ colon ∷ (print_int login ++ colon ∷ print_int (login + 86_400)) in
      payload ++ dot ∷ encode (mac secret payload)

  -- `parseInt64`; and `time.Now().After(time.Unix(t, 0))` for a word `t`.
  abbrev parse_int64 : Bytes → ℕ
  parse_int64 s = elim (parse_int s) [ none ↦ 0 | some n ↦ n ]

  abbrev is_past : ℕ → ℕ → Bool
  is_past now t = if ltb t half then ltb (t * second) now else true

  abbrev read_payload : ℕ → List Bytes → Result SessionData
  read_payload now (username ∷ login ∷ expires ∷ []) =
      if is_past now (parse_int64 expires)
      then failure (codes "session expired")
      else ok (record {
        username = username;
        login_time = parse_int64 login;
        expires_at = parse_int64 expires;
      })
  read_payload now _ = failure (codes "invalid payload format")

  abbrev read_session : ℕ → List Bytes → Result SessionData
  read_session now (payload ∷ signature ∷ []) = elim (decode signature) [
    | none ↦ failure (codes "invalid signature encoding")
    | some actual ↦
        if not (bytes_eq (mac secret payload) actual)
        then failure (codes "invalid session signature")
        else read_payload now (split colon payload)
  ]
  read_session now _ = failure (codes "invalid session format")

  unfoldable pub validate_session : ℕ → Bytes → Result SessionData
  validate_session now session_value =
      if length session_value == 0
      then failure (codes "empty session value")
      else read_session now (split dot session_value)

  module _ (header_json : Bytes) (marshal : Claims → Bytes)
      (unmarshal : Bytes → Option Decoded) where
    -- `now` and `later` are the two times read; `ttl` is a duration.
    unfoldable pub generate_jwt : Bytes → ℕ → ℕ → ℕ → Result Bytes
    generate_jwt username ttl now later =
        let claims : Claims = record {
          sub = username;
          iat = now / second;
          exp = time_add later ttl / second;
        } in
        let unsigned = encode header_json ++ dot ∷ encode (marshal claims) in
        if length username == 0 || sle ttl 0
        then failure (codes "invalid params")
        else ok (unsigned ++ dot ∷ encode (mac secret unsigned))

    abbrev check_claims : ℕ → Decoded → Result Bytes
    check_claims now d = elim d.exp [
      | absent ↦ failure (codes "no exp")
      | wrong_type ↦ failure (codes "bad exp type")
      | at exp ↦
          if sle exp (now / second)
          then failure (codes "token expired")
          else if length d.sub == 0
          then failure (codes "no sub")
          else ok d.sub
    ]

    abbrev read_claims : ℕ → Option Bytes → Result Bytes
    read_claims now none = failure (codes "bad claims encoding")
    read_claims now (some claims_json) = elim (unmarshal claims_json) [
      | none ↦ failure (codes "bad claims")
      | some d ↦ check_claims now d
    ]

    abbrev read_token : ℕ → List Bytes → Result Bytes
    read_token now (head ∷ body ∷ signature ∷ []) = elim (decode signature) [
      | none ↦ failure (codes "bad signature encoding")
      | some actual ↦
          if not (bytes_eq (mac secret (head ++ dot ∷ body)) actual)
          then failure (codes "invalid signature")
          else read_claims now (decode body)
    ]
    read_token now _ = failure (codes "invalid token")

    unfoldable pub validate_jwt : ℕ → Bytes → Result Bytes
    validate_jwt now token =
        if length token == 0
        then failure (codes "empty token")
        else read_token now (split dot token)

    -- Whether the request reaches the handler.
    unfoldable pub admin_bearer_required : ℕ → Headers → Bool
    admin_bearer_required now h =
        not (length (get_sso_username_from_headers h) == 0) || elim (bearer_token h.authorization) [
          | none ↦ false
          | some token ↦ is_ok (validate_jwt now token)
        ]

    unfoldable pub admin_api_guard : Bool → ℕ → Headers → Bool
    admin_api_guard admin_enabled now h =
        if not admin_enabled
        then true
        else (not (length (get_sso_username_from_headers h) == 0)
            || elim (bearer_token h.authorization) [
              | none ↦ false
              | some token ↦ not (length token == 0) && is_ok (validate_jwt now token)
            ])
