-- ===== src/HttpServer/Auth/Tokens.antt =====
-- internal/adapter/httpserver/auth.go: the tokens that ValidateJWT accepts, and the guards in front of
-- the admin interface.
use ai_cv_evaluator.Base.{
  ℕ, ◌/◌, ◌≤◌, ◌<◌, ◌≡◌, refl, ◌⊎◌, inl, inr, true, false, Option, some, List, [], ◌∷◌, ◌++◌, arith,
  ◌==◌, Bool-cases, Option-cases, length, drop, length-append, half, sle, time_add, second, Bytes,
  codes, to_lower, has_prefix, trim_space, bytes_eq_refl, bytes_eq_iff,
}
use mathlib.Core.Path.{subst}
use ai_cv_evaluator.Domain.{Result, ok, err, Result-cases}
use ai_cv_evaluator.HttpServer.Auth.{
  split, dot, Codecs, Claims, Decoded, Expiry, absent, wrong_type, at, generate_jwt, validate_jwt,
  Headers, get_sso_username_from_headers, bearer_token, admin_bearer_required, admin_api_guard,
  is_ok, read_token, check_claims,
}
use ai_cv_evaluator.HttpServer.Auth.Splitting.{split-whole, split-append, append_assoc}
use ai_cv_evaluator.HttpServer.Auth.Sessions.{IsCodec}

-- The numbers that a float64 holds exactly.
abbrev pub exact : ℕ
exact = 9_007_199_254_740_992

module _ (codecs : Codecs) (secret : Bytes) (header_json : Bytes) (marshal : Claims → Bytes)
    (unmarshal : Bytes → Option Decoded) where
  open codecs use {mac, encode, decode}

  -- What the code relies on: the claims of a user are read back from their JSON.
  abbrev pub ReadsBack : Bytes → Type 0
  ReadsBack username =
      (iat exp : ℕ)
      → exp < exact
      → unmarshal (marshal (record { sub = username; iat = iat; exp = exp }))
        ≡ some (record { sub = username; exp = at exp })

  -- What a client does with a token.
  abbrev pub sign_on : Result Bytes → ℕ → Result Bytes
  sign_on (err e) seen = err e
  sign_on (ok token) seen = validate_jwt codecs secret header_json marshal unmarshal seen token

  -- A token that was issued for a user is accepted, with the user's name, in every second before that of
  -- its expiry, when the name is not empty, the duration is positive, base64 decodes what it encodes
  -- without using a dot, the claims of the user are read back from their JSON, and the expiry is a number
  -- that a float64 holds.
  pub validate_jwt-generate_jwt :
      IsCodec codecs
      → (username : Bytes) → ReadsBack username
      → (ttl now later seen : ℕ) → 1 ≤ length username
      → 1 ≤ ttl
      → ttl < half
      → time_add later ttl / second < exact
      → seen / second < time_add later ttl / second
      → sign_on
          (generate_jwt codecs secret header_json marshal unmarshal username ttl now later)
          seen
        ≡ ok username
  unfolding generate_jwt validate_jwt
  validate_jwt-generate_jwt is_codec username read_back ttl now later seen named lasts short small
        early =
      let claims : Claims = record {
        sub = username;
        iat = now / second;
        exp = time_add later ttl / second;
      } in
      let head = encode header_json in
      let body = encode (marshal claims) in
      let signature = encode (mac secret (head ++ dot ∷ body)) in
      ground (
        arith,
        append_assoc head (dot ∷ body) (dot ∷ signature),
        split-append dot head (body ++ dot ∷ signature) (is_codec.no_dot header_json),
        split-append dot body signature (is_codec.no_dot (marshal claims)),
        split-whole dot signature (is_codec.no_dot (mac secret (head ++ dot ∷ body))),
        is_codec.decoded (mac secret (head ++ dot ∷ body)),
        is_codec.decoded (marshal claims),
        bytes_eq_refl (mac secret (head ++ dot ∷ body)),
        read_back (now / second) (time_add later ttl / second) small,
        length-append (head ++ dot ∷ body) (dot ∷ signature),
      )

  -- A token of three parts, the last the mac of the first two, whose claims name the user and
  -- expire later.
  pub record IsSigned (now : ℕ) (token sub : Bytes) : Type 0 where
    pub head : Bytes
    pub body : Bytes
    pub signature : Bytes
    pub claims_json : Bytes
    pub exp : ℕ
    pub parts : split dot token ≡ head ∷ body ∷ signature ∷ []
    pub signed : decode signature ≡ some (mac secret (head ++ dot ∷ body))
    pub carried : decode body ≡ some claims_json
    pub claims : unmarshal claims_json ≡ some (record { sub = sub; exp = at exp })
    pub current : sle exp (now / second) ≡ false
    pub named : 1 ≤ length sub

  claims_checked :
      (now : ℕ) (sub s : Bytes) (x : Expiry)
      → check_claims codecs secret header_json marshal unmarshal now (record { sub = s; exp = x })
        ≡ ok sub
      → (exp : ℕ) × (x ≡ at exp) × (s ≡ sub) × (sle exp (now / second) ≡ false) × (1 ≤ length s)
  claims_checked now sub s absent h = ground (arith, h)
  claims_checked now sub s wrong_type h = ground (arith, h)
  claims_checked now sub s (at exp) h =
      (exp, refl, ground (arith, h), ground (arith, h), ground (arith, h))

  parts-IsSigned :
      (now : ℕ) (token sub : Bytes) (xs : List Bytes)
      → split dot token ≡ xs
      → read_token codecs secret header_json marshal unmarshal now xs ≡ ok sub
      → IsSigned now token sub
  parts-IsSigned now token sub [] e h = ground (arith, h)
  parts-IsSigned now token sub (head ∷ []) e h = ground (arith, h)
  parts-IsSigned now token sub (head ∷ body ∷ []) e h = ground (arith, h)
  parts-IsSigned now token sub (head ∷ body ∷ signature ∷ x ∷ xs) e h = ground (arith, h)
  parts-IsSigned now token sub (head ∷ body ∷ signature ∷ []) e h =
      elim (Option-cases (decode signature)) [
        | inl e1 ↦ ground (arith, h, e1)
        | inr (actual, e1) ↦ elim (Option-cases (decode body)) [
          | inl e4 ↦ ground (arith, h, e1, e4)
          | inr (json, e2) ↦ elim (Option-cases (unmarshal json)) [
            | inl e4 ↦ ground (arith, h, e1, e2, e4)
            | inr (d, e3) ↦
                let (exp, x, s, current, named) =
                  claims_checked now sub d.sub d.exp (ground (arith, h, e1, e2, e3)) in
                record {
                  head = head;
                  body = body;
                  signature = signature;
                  claims_json = json;
                  exp = exp;
                  parts = e;
                  signed =
                      ground (arith, h, e1, bytes_eq_iff (mac secret (head ++ dot ∷ body)) actual);
                  carried = e2;
                  claims = ground (arith, e3, x, s);
                  current = current;
                  named = ground (arith, s, named);
                }
          ]
        ]
      ]

  pub validate_jwt-IsSigned :
      (now : ℕ) (token sub : Bytes)
      → validate_jwt codecs secret header_json marshal unmarshal now token ≡ ok sub
      → IsSigned now token sub
  unfolding validate_jwt
  validate_jwt-IsSigned now token sub h =
      parts-IsSigned now token sub (split dot token) refl (ground (arith, h))

  abbrev validate : ℕ → Bytes → Result Bytes
  validate = validate_jwt codecs secret header_json marshal unmarshal

  empty_refused : (now : ℕ) → is_ok (validate now []) ≡ false
  unfolding validate_jwt
  empty_refused now = refl

  -- The two guards let the same requests through: the test for an empty token in one of them is
  -- made again by ValidateJWT.
  pub admin_api_guard-admin_bearer_required :
      (now : ℕ) (h : Headers)
      → admin_api_guard codecs secret header_json marshal unmarshal true now h
        ≡ admin_bearer_required codecs secret header_json marshal unmarshal now h
  unfolding admin_api_guard admin_bearer_required
  admin_api_guard-admin_bearer_required now h = elim (Option-cases (bearer_token h.authorization)) [
    | inl e ↦ ground (arith, e)
    | inr ([], e) ↦ ground (arith, e, empty_refused now)
    | inr (c ∷ s, e) ↦ ground (arith, e)
  ]

  sso_forwarded :
      (h : Headers)
      → (length (trim_space h.auth_request_user) == 0) ≡ true
      → (length (get_sso_username_from_headers h) == 0) ≡ false
      → 1 ≤ length (trim_space h.forwarded_user)
  unfolding get_sso_username_from_headers
  sso_forwarded h a e = ground (arith, a, e)

  bearer_token-prefix :
      (header token : Bytes)
      → bearer_token header ≡ some token
      → has_prefix (to_lower (trim_space header)) (codes "bearer ") ≡ true
  unfolding bearer_token
  bearer_token-prefix header token e = ground (arith, e)

  bearer_token-rest :
      (header token : Bytes)
      → bearer_token header ≡ some token
      → token ≡ trim_space (drop 7 (trim_space header))
  unfolding bearer_token
  bearer_token-rest header token e = ground (arith, e)

  -- With admin access enabled, the guard lets a request through only if one of the two headers of a proxy
  -- holds more than white space, or the trimmed header `Authorization` begins with "bearer " in any case
  -- and the rest of it, trimmed, is a token of three parts of which the last is the mac of the first two,
  -- with claims that name a user and expire later.
  pub admin_api_guard-IsSigned :
      (now : ℕ) (h : Headers)
      → admin_api_guard codecs secret header_json marshal unmarshal true now h ≡ true
      → (1 ≤ length (trim_space h.auth_request_user))
        ⊎ (1 ≤ length (trim_space h.forwarded_user))
        ⊎ ((sub : Bytes) × (has_prefix (to_lower (trim_space h.authorization)) (codes "bearer ")
              ≡ true)
            × IsSigned now (trim_space (drop 7 (trim_space h.authorization))) sub)
  unfolding admin_api_guard
  admin_api_guard-IsSigned now h allowed =
      elim (Bool-cases (length (get_sso_username_from_headers h) == 0)) [
        | inr e ↦ elim (Bool-cases (length (trim_space h.auth_request_user) == 0)) [
          | inr a ↦ inl (ground (arith, a))
          | inl a ↦ inr (inl (sso_forwarded h a e))
        ]
        | inl e ↦ elim (Option-cases (bearer_token h.authorization)) [
          | inl e1 ↦ ground (arith, allowed, e, e1)
          | inr (token, e1) ↦ elim (Result-cases (validate now token)) [
            | inl (sub, e2) ↦ inr (
                inr (
                  sub,
                  bearer_token-prefix h.authorization token e1,
                  subst (λ t. IsSigned now t sub) (bearer_token-rest h.authorization token e1)
                      (validate_jwt-IsSigned now token sub e2),
                ))
            | inr (x, e2) ↦ ground (arith, allowed, e, e1, e2)
          ]
        ]
      ]
