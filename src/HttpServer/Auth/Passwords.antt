-- ===== src/HttpServer/Auth/Passwords.antt =====
-- internal/adapter/httpserver/auth.go: Argon2id password hashes, printed and read back. The hash,
-- base64 and the numbers are parameters.
use ai_cv_evaluator.Base.{
  ℕ, ◌^◌, ◌≤◌, ◌<◌, ◌≡◌, refl, Bool, true, false, not, Option, none, some, List, [], ◌∷◌, ◌++◌,
  arith, ltb, if◌then◌else◌, Bytes, codes, bytes_eq, bytes_eq_refl,
}
use ai_cv_evaluator.HttpServer.Auth.{split, dollar, Codecs}
use ai_cv_evaluator.HttpServer.Auth.Splitting.{is_free_of, split-whole, split-append}

pub record Argon2Params : Type 0 where
  pub memory : ℕ
  pub iterations : ℕ
  pub parallelism : ℕ
  pub salt_len : ℕ
  pub key_len : ℕ

abbrev pub default_argon2_params : Argon2Params
default_argon2_params = record {
  memory = 65_536;
  iterations = 3;
  parallelism = 2;
  salt_len = 16;
  key_len = 32;
}

-- `argon2.IDKey`: the password, the salt, the iterations, the memory, the threads, the key's length.
module _ (codecs : Codecs) (id_key : Bytes → Bytes → ℕ → ℕ → ℕ → ℕ → Bytes) where
  open codecs use {encode, decode, print_int, parse_int}

  -- `read` is what the random source gives: a salt of the length asked for, or an error.
  unfoldable pub hash_password : Bytes → Argon2Params → (ℕ → Option Bytes) → Option Bytes
  hash_password password params read = elim (read params.salt_len) [
    | none ↦ none
    | some salt ↦
        let hash =
          id_key password salt params.iterations params.memory params.parallelism params.key_len in
        some (
          codes "argon2id"
          ++ dollar
            ∷ (print_int params.iterations
                ++ dollar
                  ∷ (print_int params.memory
                      ++ dollar
                        ∷ (print_int params.parallelism
                            ++ dollar ∷ (encode salt ++ dollar ∷ encode hash)))))
  ]

  -- `parseUint32`.
  unfoldable pub parse_uint32 : Bytes → Option ℕ
  parse_uint32 s = elim (parse_int s) [
    | none ↦ none
    | some x ↦ if ltb x (2 ^ 32) then some x else none
  ]

  abbrev check_hash : Bytes → List Bytes → Bool
  check_hash password (name ∷ iters ∷ mem ∷ par ∷ salt_text ∷ hash_text ∷ []) =
      if not (bytes_eq name (codes "argon2id")) then false else elim (parse_uint32 iters) [
        | none ↦ false
        | some iters32 ↦ elim (parse_uint32 mem) [
          | none ↦ false
          | some mem32 ↦ elim (parse_uint32 par) [
            | none ↦ false
            | some par32 ↦ elim (decode salt_text) [
              | none ↦ false
              | some salt ↦ elim (decode hash_text) [
                | none ↦ false
                | some expected ↦
                    bytes_eq
                      (id_key password salt iters32 mem32 (if ltb 255 par32 then 255 else par32)
                        default_argon2_params.key_len)
                      expected
              ]
            ]
          ]
        ]
      ]
  check_hash password _ = false

  unfoldable pub verify_password : Bytes → Bytes → Bool
  verify_password password encoded_hash = check_hash password (split dollar encoded_hash)

  -- What the code relies on: base64 is decoded again, a printed number is read again, and neither
  -- has a dollar sign.
  pub record IsPrinted : Type 0 where
    pub decoded : (s : Bytes) → decode (encode s) ≡ some s
    pub no_dollar : (s : Bytes) → is_free_of dollar (encode s) ≡ true
    pub parsed : (n : ℕ) → n < 2 ^ 32 → parse_int (print_int n) ≡ some n
    pub digits : (n : ℕ) → is_free_of dollar (print_int n) ≡ true

  split-printed :
      (is_printed : IsPrinted) (name salt hash : Bytes) (iters mem par : ℕ)
      → is_free_of dollar name ≡ true
      → split dollar (
          name
          ++ dollar
            ∷ (print_int iters
                ++ dollar
                  ∷ (print_int mem
                      ++ dollar
                        ∷ (print_int par ++ dollar ∷ (encode salt ++ dollar ∷ encode hash)))))
        ≡ name ∷ print_int iters ∷ print_int mem ∷ print_int par ∷ encode salt ∷ encode hash ∷ []
  split-printed is_printed name salt hash iters mem par plain =
      let rest4 = encode salt ++ dollar ∷ encode hash in
      let rest3 = print_int par ++ dollar ∷ rest4 in
      let rest2 = print_int mem ++ dollar ∷ rest3 in
      let rest1 = print_int iters ++ dollar ∷ rest2 in
      rw
        (
          split-append dollar name rest1 plain,
          split-append dollar (print_int iters) rest2 (is_printed.digits iters),
          split-append dollar (print_int mem) rest3 (is_printed.digits mem),
          split-append dollar (print_int par) rest4 (is_printed.digits par),
          split-append dollar (encode salt) (encode hash) (is_printed.no_dollar salt),
          split-whole dollar (encode hash) (is_printed.no_dollar hash),
        )
        refl

  parse_uint32-print_int :
      (is_printed : IsPrinted) (n : ℕ) → n < 2 ^ 32 → parse_uint32 (print_int n) ≡ some n
  unfolding parse_uint32
  parse_uint32-print_int is_printed n small = ground (arith, is_printed.parsed n small)

  check_hash-printed :
      (is_printed : IsPrinted) (other salt hash : Bytes) (iters mem par : ℕ)
      → iters < 2 ^ 32
      → mem < 2 ^ 32
      → par ≤ 255
      → check_hash other (
          codes "argon2id"
          ∷ print_int iters
          ∷ print_int mem
          ∷ print_int par
          ∷ encode salt
          ∷ encode hash
          ∷ [])
        ≡ bytes_eq (id_key other salt iters mem par 32) hash
  check_hash-printed is_printed other salt hash iters mem par small1 small2 small3 =
      let kept : ltb 255 par ≡ false = ground arith in
      rw
        (
          bytes_eq_refl (codes "argon2id"),
          parse_uint32-print_int is_printed iters small1,
          parse_uint32-print_int is_printed mem small2,
          parse_uint32-print_int is_printed par (ground (arith, small3)),
          is_printed.decoded salt,
          is_printed.decoded hash,
          kept,
        )
        refl

  -- A password is accepted against a printed hash exactly when it has the same hash under the same salt
  -- and parameters: when the parameters fit their fields, the key has the default length of 32, and the
  -- numbers and the base64 texts are read back and have no dollar sign.
  pub verify_password-hash_password :
      IsPrinted
      → (password other : Bytes) (params : Argon2Params) (read : ℕ → Option Bytes)
        (salt hashed : Bytes)
      → params.iterations < 2 ^ 32
      → params.memory < 2 ^ 32
      → params.parallelism ≤ 255
      → params.key_len ≡ 32
      → read params.salt_len ≡ some salt
      → hash_password password params read ≡ some hashed
      → verify_password other hashed
        ≡ bytes_eq
            (id_key other salt params.iterations params.memory params.parallelism 32)
            (id_key password salt params.iterations params.memory params.parallelism 32)
  unfolding hash_password verify_password parse_uint32
  verify_password-hash_password is_printed password other params read salt hashed small1 small2
        small3 key given h =
      let hash =
        id_key password salt params.iterations params.memory params.parallelism params.key_len in
      ground (
        arith,
        h,
        given,
        split-printed is_printed (codes "argon2id") salt hash params.iterations params.memory
            params.parallelism refl,
        check_hash-printed is_printed other salt hash params.iterations params.memory
            params.parallelism small1 small2 small3,
      )
