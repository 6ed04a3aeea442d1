-- ===== src/HttpServer/Auth/Sessions.antt =====
-- internal/adapter/httpserver/auth.go: what a session value keeps of the user who signed on.
use ai_cv_evaluator.Base.{
  ℕ, ◌+◌, ◌*◌, ◌/◌, ◌≤◌, ◌<◌, ◌≡◌, true, some, [], ◌∷◌, ◌++◌, arith, length-append, half, second,
  Bytes, codes, bytes_eq_refl,
}
use ai_cv_evaluator.Domain.{ok}
use ai_cv_evaluator.HttpServer.Auth.{
  split, dot, colon, failure, Codecs, SessionData, create_session, validate_session,
}
use ai_cv_evaluator.HttpServer.Auth.Splitting.{
  is_free_of, split-whole, split-append, length-split, length-split_pos, length-split_longer,
  is_free_of-append,
}

-- What the code relies on: base64 is decoded again and has no dot, and a printed number is read
-- again and has neither a dot nor a colon.
pub record IsCodec (codecs : Codecs) : Type 0 where
  pub decoded : (s : Bytes) → codecs.decode (codecs.encode s) ≡ some s
  pub no_dot : (s : Bytes) → is_free_of dot (codecs.encode s) ≡ true
  pub parsed : (n : ℕ) → n < half → codecs.parse_int (codecs.print_int n) ≡ some n
  pub digits : (n : ℕ) → is_free_of dot (codecs.print_int n) ≡ true
  pub no_colon : (n : ℕ) → is_free_of colon (codecs.print_int n) ≡ true

module _ (codecs : Codecs) (is_codec : IsCodec codecs) (secret : Bytes) where
  open codecs use {mac, encode, print_int}

  abbrev pub session_of : Bytes → ℕ → SessionData
  session_of username login = record {
    username = username;
    login_time = login;
    expires_at = login + 86_400;
  }

  abbrev signed_payload : Bytes → ℕ → Bytes
  signed_payload username login =
      username ++ colon ∷ (print_int login ++ colon ∷ print_int (login + 86_400))

  split-payload :
      (username : Bytes) (login : ℕ)
      → is_free_of colon username ≡ true
      → split colon (signed_payload username login)
        ≡ username ∷ print_int login ∷ print_int (login + 86_400) ∷ []
  split-payload username login h = ground (
    arith,
    split-append colon username (print_int login ++ colon ∷ print_int (login + 86_400)) h,
    split-append colon (print_int login) (print_int (login + 86_400)) (is_codec.no_colon login),
    split-whole colon (print_int (login + 86_400)) (is_codec.no_colon (login + 86_400)),
  )

  payload-is_free :
      (username : Bytes) (login : ℕ)
      → is_free_of dot username ≡ true
      → is_free_of dot (signed_payload username login) ≡ true
  payload-is_free username login h =
      let expires = print_int (login + 86_400) in
      is_free_of-append dot username (colon ∷ (print_int login ++ colon ∷ expires)) h (
        is_free_of-append dot (print_int login) (colon ∷ expires) (is_codec.digits login)
          (is_codec.digits (login + 86_400)))

  split-session :
      (username : Bytes) (login : ℕ)
      → is_free_of dot username ≡ true
      → split dot (
          signed_payload username login
          ++ dot ∷ encode (mac secret (signed_payload username login)))
        ≡ signed_payload username login ∷ encode (mac secret (signed_payload username login)) ∷ []
  split-session username login h =
      let payload = signed_payload username login in
      ground (
        arith,
        split-append dot payload (encode (mac secret payload)) (payload-is_free username login h),
        split-whole dot (encode (mac secret payload)) (is_codec.no_dot (mac secret payload)),
      )

  -- A session value gives back the user and the two times for as long as the session lasts, when the name
  -- has neither a dot nor a colon.
  pub validate_session-create_session :
      (username : Bytes) (now later : ℕ)
      → is_free_of dot username ≡ true
      → is_free_of colon username ≡ true
      → now / second + 86_400 < half
      → later ≤ (now / second + 86_400) * second
      → validate_session codecs secret later (create_session codecs secret username now)
        ≡ ok (session_of username (now / second))
  unfolding create_session validate_session
  validate_session-create_session username now later plain parts small early =
      let login = now / second in
      let payload = signed_payload username login in
      ground (
        arith,
        split-session username login plain,
        split-payload username login parts,
        is_codec.decoded (mac secret payload),
        bytes_eq_refl (mac secret payload),
        length-append payload (dot ∷ encode (mac secret payload)),
        is_codec.parsed login,
        is_codec.parsed (login + 86_400),
      )

  -- For a user whose name has a dot, as an e-mail address has, the session value that was created is
  -- always refused, as one of a wrong format.
  pub dotted_session_fails :
      (first rest : Bytes) (now later : ℕ)
      → validate_session codecs secret later
          (create_session codecs secret (first ++ dot ∷ rest) now)
        ≡ failure (codes "invalid session format")
  unfolding create_session validate_session
  dotted_session_fails first rest now later =
      let login = now / second in
      let payload = signed_payload (first ++ dot ∷ rest) login in
      let signature = encode (mac secret payload) in
      ground (
        arith,
        length-split dot payload signature,
        length-split dot first rest,
        length-split_pos dot first,
        length-split_pos dot rest,
        length-split_pos dot signature,
        length-split_longer dot (first ++ dot ∷ rest)
            (colon ∷ (print_int login ++ colon ∷ print_int (login + 86_400))),
        length-append payload (dot ∷ signature),
      )
