-- ===== src/AiClient/Accounts.antt =====
-- internal/adapter/ai/real/client.go: the API keys of the accounts, and the blocks after a rate
-- limit. A time is the word of `UnixNano`. Each operation is one load or store of an atomic.
use ai_cv_evaluator.Base.{
  ℕ, ◌*◌, ◌%◌, ◌<◌, ◌≡◌, Bool, true, false, not, ◌&&◌, ◌||◌, [], ◌∷◌, arith, ◌==◌, if◌then◌else◌,
  modulus, inc, add64, slt, sle, second, Bytes, trim_space, bytes_eq, bytes_eq_iff,
}

pub record Config : Type 0 where
  pub groq_api_key : Bytes
  pub groq_api_key2 : Bytes
  pub open_router_api_key : Bytes
  pub open_router_api_key2 : Bytes

-- The atomics of `Client`: a block is 0 or the time when it ends.
pub record Accounts : Type 0 where
  pub groq1_blocked : ℕ
  pub groq2_blocked : ℕ
  pub open_router1_blocked : ℕ
  pub open_router2_blocked : ℕ
  pub open_router_blocked : ℕ
  pub open_router_key_counter : ℕ

abbrev is_empty : Bytes → Bool
is_empty [] = true
is_empty (c ∷ s) = false

unfoldable pub get_open_router_api_key : Config → Accounts → Bytes × Accounts
get_open_router_api_key cfg acc =
    let k1 = trim_space cfg.open_router_api_key in
    let k2 = trim_space cfg.open_router_api_key2 in
    let counted : Accounts = record acc {
      open_router_key_counter = inc acc.open_router_key_counter;
    } in
    if not (is_empty k1) && is_empty k2
    then (k1, acc)
    else if not (is_empty k2) && is_empty k1
    then (k2, acc)
    else if not (is_empty k1) && not (is_empty k2)
    then (if counted.open_router_key_counter % 2 == 0 then (k1, counted) else (k2, counted))
    else ([], acc)

unfoldable pub get_open_router_keys : Config → Bytes × Bytes
get_open_router_keys cfg = (trim_space cfg.open_router_api_key, trim_space cfg.open_router_api_key2)

abbrev pub until_passed : ℕ → ℕ → Bool
until_passed now blocked_until = not (blocked_until == 0) && slt now blocked_until

-- `d <= 0` asks for the default of a minute.
abbrev pub cooldown_of : ℕ → ℕ
cooldown_of d = if sle d 0 then 60 * second else d

unfoldable pub is_open_router_blocked : ℕ → Accounts → Bool
is_open_router_blocked now acc = until_passed now acc.open_router_blocked

unfoldable pub block_open_router : ℕ → ℕ → Accounts → Accounts
block_open_router now d acc = record acc { open_router_blocked = add64 now (cooldown_of d) }

unfoldable pub is_open_router_account_blocked : Config → ℕ → Bytes → Accounts → Bool
is_open_router_account_blocked cfg now api_key acc =
    let key = trim_space api_key in
    if is_empty key
    then false
    else if bytes_eq key (trim_space cfg.open_router_api_key)
    then until_passed now acc.open_router1_blocked
    else if bytes_eq key (trim_space cfg.open_router_api_key2)
    then until_passed now acc.open_router2_blocked
    else false

unfoldable pub block_open_router_account : Config → ℕ → Bytes → ℕ → Accounts → Accounts
block_open_router_account cfg now api_key d acc =
    let key = trim_space api_key in
    let blocked_until = add64 now (cooldown_of d) in
    if is_empty key
    then acc
    else if bytes_eq key (trim_space cfg.open_router_api_key)
    then record acc { open_router1_blocked = blocked_until }
    else if bytes_eq key (trim_space cfg.open_router_api_key2)
    then record acc { open_router2_blocked = blocked_until }
    else acc

unfoldable pub is_groq_account_blocked : Config → ℕ → Bytes → Accounts → Bool
is_groq_account_blocked cfg now api_key acc =
    let key = trim_space api_key in
    if is_empty key
    then false
    else if bytes_eq key (trim_space cfg.groq_api_key)
    then until_passed now acc.groq1_blocked
    else if bytes_eq key (trim_space cfg.groq_api_key2)
    then until_passed now acc.groq2_blocked
    else false

unfoldable pub block_groq_account : Config → ℕ → Bytes → ℕ → Accounts → Accounts
block_groq_account cfg now api_key d acc =
    let key = trim_space api_key in
    let blocked_until = add64 now (cooldown_of d) in
    if is_empty key
    then acc
    else if bytes_eq key (trim_space cfg.groq_api_key)
    then record acc { groq1_blocked = blocked_until }
    else if bytes_eq key (trim_space cfg.groq_api_key2)
    then record acc { groq2_blocked = blocked_until }
    else acc

-- A key of one of the two OpenRouter accounts.
abbrev pub is_configured : Config → Bytes → Bool
is_configured cfg api_key =
    let key = trim_space api_key in
    not (is_empty key)
    && (bytes_eq key (trim_space cfg.open_router_api_key)
        || bytes_eq key (trim_space cfg.open_router_api_key2))

-- Blocking the account of a configured key blocks that account until the time asked for, and leaves
-- the block of every other key as it was; a key that is not configured blocks nothing.
pub block_account-blocked :
    (cfg : Config) (now later : ℕ) (key other : Bytes) (d : ℕ) (acc : Accounts)
    → is_open_router_account_blocked cfg later other (block_open_router_account cfg now key d acc)
      ≡ (if is_configured cfg key && bytes_eq (trim_space key) (trim_space other)
          then until_passed later (add64 now (cooldown_of d))
          else is_open_router_account_blocked cfg later other acc)
unfolding is_open_router_account_blocked block_open_router_account
block_account-blocked cfg now later key other d acc = ground (
  arith,
  bytes_eq_iff (trim_space key) (trim_space other),
  bytes_eq_iff (trim_space key) (trim_space cfg.open_router_api_key),
  bytes_eq_iff (trim_space key) (trim_space cfg.open_router_api_key2),
  bytes_eq_iff (trim_space other) (trim_space cfg.open_router_api_key),
  bytes_eq_iff (trim_space other) (trim_space cfg.open_router_api_key2),
)

-- A key of one of the two Groq accounts.
abbrev pub is_groq_configured : Config → Bytes → Bool
is_groq_configured cfg api_key =
    let key = trim_space api_key in
    not (is_empty key)
    && (bytes_eq key (trim_space cfg.groq_api_key) || bytes_eq key (trim_space cfg.groq_api_key2))

-- When a wait that the provider asks for at `now` is over, as a word of 64 bits; it is a minute when the
-- provider asks for none.
abbrev pub wait_over : ℕ → ℕ → ℕ
wait_over now d = add64 now (if sle d 0 then 60 * second else d)

-- Blocking the Groq account of a configured key blocks that account until the time asked for, and
-- leaves the block of every other key as it was; a key that is not configured blocks nothing.
pub block_groq_account-blocked :
    (cfg : Config) (now later : ℕ) (key other : Bytes) (d : ℕ) (acc : Accounts)
    → is_groq_account_blocked cfg later other (block_groq_account cfg now key d acc) ≡ (
        if is_groq_configured cfg key && bytes_eq (trim_space key) (trim_space other)
        then not (wait_over now d == 0) && slt later (wait_over now d)
        else is_groq_account_blocked cfg later other acc)
unfolding is_groq_account_blocked block_groq_account
block_groq_account-blocked cfg now later key other d acc = ground (
  arith,
  bytes_eq_iff (trim_space key) (trim_space other),
  bytes_eq_iff (trim_space key) (trim_space cfg.groq_api_key),
  bytes_eq_iff (trim_space key) (trim_space cfg.groq_api_key2),
  bytes_eq_iff (trim_space other) (trim_space cfg.groq_api_key),
  bytes_eq_iff (trim_space other) (trim_space cfg.groq_api_key2),
)

-- With two keys configured, a call that asks for a key twice and uses the second one, as `ChatJSON`
-- does, uses the same key again the next time: the two accounts do not take turns.
pub second_key_again :
    (cfg : Config) (acc : Accounts)
    → acc.open_router_key_counter < modulus
    → let ask : Accounts → Bytes × Accounts =
        λ a. get_open_router_api_key cfg (get_open_router_api_key cfg a).1 in
      (ask (ask acc).1).0 ≡ (ask acc).0
unfolding get_open_router_api_key
second_key_again cfg acc fits = ground arith
