-- ===== src/Examples/Http.antt =====
-- The theorems on the sessions, the tokens, the passwords and the handlers at concrete inputs.
use ai_cv_evaluator.Base.{
  ℕ, ◌+◌, ◌-◌, ◌*◌, ◌≤◌, ◌<◌, ◌≡◌, refl, ap, ◌⊎◌, true, Option, none, some, [], ◌∷◌, ◌++◌, arith,
  length, drop, second, Bytes, codes, to_lower, has_prefix, trim_left, trim_right, trim_space,
  bytes_eq,
}
use ai_cv_evaluator.Domain.{ok}
use ai_cv_evaluator.HttpServer.Auth.{
  Codecs, Claims, Decoded, at, dot, dollar, Headers, create_session, validate_session, failure,
  generate_jwt, validate_jwt, admin_api_guard, get_sso_username_from_headers, bearer_token, split,
}
use ai_cv_evaluator.HttpServer.Auth.Splitting.{is_free_of}
use ai_cv_evaluator.HttpServer.Auth.Sessions.{
  IsCodec, session_of, validate_session-create_session, dotted_session_fails,
}
use ai_cv_evaluator.HttpServer.Auth.Passwords.{
  default_argon2_params, hash_password, verify_password, IsPrinted, verify_password-hash_password,
}
use ai_cv_evaluator.HttpServer.Auth.Tokens.{
  ReadsBack, sign_on, validate_jwt-generate_jwt, IsSigned, admin_api_guard-IsSigned,
}

-- Stand-ins: a code above the bytes for each byte and for each number.
abbrev shift : Bytes → Bytes
shift [] = []
shift (c ∷ s) = (c + 1_000) ∷ shift s

abbrev unshift : Bytes → Bytes
unshift [] = []
unshift (c ∷ s) = (c - 1_000) ∷ unshift s

abbrev read_number : Bytes → Option ℕ
read_number (c ∷ []) = some (c - 1_000)
read_number _ = none

abbrev codecs : Codecs
codecs = record {
  mac = λ secret text. secret ++ text;
  encode = shift;
  decode = λ s. some (unshift s);
  print_int = λ n. (n + 1_000) ∷ [];
  parse_int = read_number;
}

unshift-shift : (s : Bytes) → unshift (shift s) ≡ s
unshift-shift [] = refl
unshift-shift (c ∷ s) = ground (arith, unshift-shift s)

shift-is_free : (sep : ℕ) (s : Bytes) → sep < 1_000 → is_free_of sep (shift s) ≡ true
shift-is_free sep [] h = refl
shift-is_free sep (c ∷ s) h = ground (arith, shift-is_free sep s h)

codecs-IsCodec : IsCodec codecs
codecs-IsCodec = record {
  decoded = λ s. ap some (unshift-shift s);
  no_dot = λ s. shift-is_free dot s (ground arith);
  parsed = λ n h. ground arith;
  digits = λ n. ground arith;
  no_colon = λ n. ground arith;
}

validate_session-create_session_example :
    validate_session codecs (codes "key") 7 (create_session codecs (codes "key") (codes "ann") 5)
    ≡ ok (session_of codecs codecs-IsCodec (codes "key") (codes "ann") 0)
validate_session-create_session_example =
    validate_session-create_session codecs codecs-IsCodec (codes "key") (codes "ann") 5 7 refl refl
      (ground arith) (ground arith)

dotted_session_fails_example :
    validate_session codecs
      (codes "key")
      7
      (create_session codecs (codes "key") (codes "ann" ++ dot ∷ codes "org") 5)
    ≡ failure (codes "invalid session format")
dotted_session_fails_example =
    dotted_session_fails codecs codecs-IsCodec (codes "key") (codes "ann") (codes "org") 5 7

-- The JSON of claims, and its reading.
abbrev marshal : Claims → Bytes
marshal c = c.exp ∷ c.sub

abbrev unmarshal : Bytes → Option Decoded
unmarshal [] = none
unmarshal (exp ∷ sub) = some (record { sub = sub; exp = at exp })

ann-ReadsBack : ReadsBack codecs (codes "key") (codes "h") marshal unmarshal (codes "ann")
ann-ReadsBack iat exp h = refl

validate_jwt-generate_jwt_example :
    sign_on codecs
      (codes "key")
      (codes "h")
      marshal
      unmarshal
      (generate_jwt codecs
        (codes "key")
        (codes "h")
        marshal
        unmarshal
        (codes "ann")
        (60 * second)
        0
        0)
      0
    ≡ ok (codes "ann")
validate_jwt-generate_jwt_example =
    validate_jwt-generate_jwt codecs (codes "key") (codes "h") marshal unmarshal codecs-IsCodec
      (codes "ann") ann-ReadsBack (60 * second) 0 0 0 (ground arith) (ground arith) (ground arith)
      (ground arith) (ground arith)

abbrev ann_claims : Claims
ann_claims = record { sub = codes "ann"; iat = 0; exp = 60 }

abbrev unsigned : Bytes
unsigned = shift (codes "h") ++ dot ∷ shift (marshal ann_claims)

abbrev bearer : Headers
bearer = record {
  auth_request_user = [];
  forwarded_user = [];
  authorization = codes "Bearer " ++ (unsigned ++ dot ∷ shift (codes "key" ++ unsigned));
}

admin_api_guard-IsSigned_example :
    (1 ≤ length (trim_space bearer.auth_request_user))
    ⊎ (1 ≤ length (trim_space bearer.forwarded_user))
    ⊎ ((sub : Bytes) × (has_prefix (to_lower (trim_space bearer.authorization)) (codes "bearer ")
          ≡ true)
        × IsSigned codecs
            (codes "key")
            (codes "h")
            marshal
            unmarshal
            0
            (trim_space (drop 7 (trim_space bearer.authorization)))
            sub)
unfolding admin_api_guard get_sso_username_from_headers trim_space trim_right trim_left bearer_token
    to_lower has_prefix validate_jwt split bytes_eq
admin_api_guard-IsSigned_example =
    admin_api_guard-IsSigned codecs (codes "key") (codes "h") marshal unmarshal 0 bearer refl

-- A stand-in for the hash: the password, the salt and the parameters.
abbrev id_key : Bytes → Bytes → ℕ → ℕ → ℕ → ℕ → Bytes
id_key password salt iterations memory parallelism key_len =
    iterations ∷ memory ∷ parallelism ∷ key_len ∷ (salt ++ password)

codecs-IsPrinted : IsPrinted codecs id_key
codecs-IsPrinted = record {
  decoded = λ s. ap some (unshift-shift s);
  no_dollar = λ s. shift-is_free dollar s (ground arith);
  parsed = λ n h. ground arith;
  digits = λ n. ground arith;
}

abbrev salted : ℕ → Option Bytes
salted n = some (codes "salt")

abbrev hashed_password : Bytes
hashed_password =
    codes "argon2id"
    ++ dollar
      ∷ ((3 + 1_000) ∷ []
          ++ dollar
            ∷ ((65_536 + 1_000) ∷ []
                ++ dollar
                  ∷ ((2 + 1_000) ∷ []
                      ++ dollar
                        ∷ (shift (codes "salt")
                            ++ dollar
                              ∷ shift (id_key (codes "secret") (codes "salt") 3 65_536 2 32)))))

verify_password-hash_password_example :
    verify_password codecs id_key (codes "guess") hashed_password
    ≡ bytes_eq
        (id_key (codes "guess") (codes "salt") 3 65_536 2 32)
        (id_key (codes "secret") (codes "salt") 3 65_536 2 32)
unfolding hash_password
verify_password-hash_password_example =
    verify_password-hash_password codecs id_key codecs-IsPrinted (codes "secret") (codes "guess")
      default_argon2_params salted (codes "salt") hashed_password (ground arith) (ground arith)
      (ground arith) refl refl refl
