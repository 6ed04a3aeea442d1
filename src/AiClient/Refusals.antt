-- ===== src/AiClient/Refusals.antt =====
-- internal/adapter/ai/real/client.go: the tests that tell a refusal, or an answer of low quality, from
-- an answer. The order in which Go visits a map does not matter to them.
use ai_cv_evaluator.Base.{
  ℕ, ◌+◌, ◌/◌, ◌≤◌, ◌<◌, max, ◌≡◌, sym, ◌⊎◌, inl, inr, Bool, true, false, ◌&&◌, ◌||◌, List, [], ◌∷◌,
  ◌++◌, map, arith, ltb, if◌then◌else◌, Bool-cases, length, take, any, Bytes, codes, is_space,
  to_lower, has_prefix, has_infix, trim_space, bytes_eq, bytes_eq_iff,
}

-- All the phrases of `isRefusalResponse`, category by category.
abbrev pub refusal_phrases : List Bytes
refusal_phrases = map codes (
    "i'm sorry" ∷ "i apologize" ∷ "i regret" ∷ "unfortunately" ∷ "i'm afraid" ∷ "i'm unable to help"
    ∷ "i cannot help" ∷ "i cannot" ∷ "i can't" ∷ "i am unable" ∷ "i'm unable" ∷ "i am not able"
    ∷ "i'm not able" ∷ "i don't have access" ∷ "i don't have the ability" ∷ "i lack the capability"
    ∷ "access or reveal" ∷ "internal system instructions" ∷ "system instructions"
    ∷ "security concerns" ∷ "potentially harmful" ∷ "safety guidelines" ∷ "content policy"
    ∷ "usage guidelines" ∷ "legitimate query" ∷ "can't assist with" ∷ "cannot assist with"
    ∷ "i cannot fulfill" ∷ "i cannot provide" ∷ "i cannot generate" ∷ "i cannot create"
    ∷ "i cannot write" ∷ "i cannot analyze" ∷ "ethical guidelines" ∷ "responsible ai" ∷ "ai safety"
    ∷ "harmful content" ∷ "inappropriate" ∷ "unethical" ∷ "violates guidelines" ∷ "against policy"
    ∷ "technical limitations" ∷ "system limitations" ∷ "processing error" ∷ "unable to process"
    ∷ "request too complex" ∷ "input too short" ∷ [])

abbrev pub short_refusal_indicators : List Bytes
short_refusal_indicators = map codes ("i can't" ∷ "i cannot" ∷ "sorry" ∷ "unable" ∷ "no" ∷ [])

abbrev pub apology_starters : List Bytes
apology_starters = map codes ("i'm sorry" ∷ "i apologize" ∷ "unfortunately" ∷ "i'm afraid" ∷ [])

abbrev pub policy_indicators : List Bytes
policy_indicators = map codes (
    "policy" ∷ "guidelines" ∷ "terms" ∷ "conditions" ∷ "rules" ∷ "restrictions" ∷ "limitations"
    ∷ "boundaries" ∷ [])

unfoldable pub is_refusal_by_pattern : Bytes → Bool
is_refusal_by_pattern response =
    let trimmed = trim_space response in
    let lower_response = to_lower response in
    if ltb (length trimmed) 50 && any (has_infix lower_response) short_refusal_indicators
    then true
    else if ltb 10 (length trimmed)
        && any (has_prefix (to_lower (take 50 trimmed))) apology_starters
    then true
    else any (has_infix lower_response) policy_indicators

unfoldable pub is_refusal_response : Bytes → Bool
is_refusal_response response =
    any (has_infix (to_lower response)) refusal_phrases || is_refusal_by_pattern response

-- `strings.Fields`; `word` holds what has been read of the current word.
abbrev end_word : Bytes → List Bytes → List Bytes
end_word [] ws = ws
end_word (c ∷ w) ws = (c ∷ w) ∷ ws

unfoldable pub fields_from : Bytes → Bytes → List Bytes
fields_from word [] = end_word word []
fields_from word (c ∷ s) =
    if is_space c then end_word word (fields_from [] s) else fields_from (word ++ c ∷ []) s

unfoldable pub fields : Bytes → List Bytes
fields s = fields_from [] s

unfoldable pub word_count : List Bytes → Bytes → ℕ
word_count [] word = 0
word_count (w ∷ ws) word = if bytes_eq w word then word_count ws word + 1 else word_count ws word

-- The greatest count of a word of `ws` among `words`.
unfoldable pub max_count : List Bytes → List Bytes → ℕ
max_count words [] = 0
max_count words (w ∷ ws) = max (word_count words w) (max_count words ws)

unfoldable pub has_excessive_repetition : List Bytes → Bool
has_excessive_repetition words =
    if ltb (length words) 10 then false else ltb (length words / 3) (max_count words words)

unfoldable pub is_low_quality_response : Bytes → Bool
is_low_quality_response response =
    let trimmed = trim_space response in
    let words = fields (to_lower trimmed) in
    if ltb (length trimmed) 30
    then true
    else if ltb (length trimmed) 10
    then true
    else if ltb (length words) 5
    then true
    else has_excessive_repetition words

-- The verdict of `detectRefusalWithValidation`, without its reason.
unfoldable pub detect_refusal : Bytes → Bool
detect_refusal response =
    if is_refusal_response response then true else is_low_quality_response response

max_count-le :
    (words ws : List Bytes) (w : Bytes)
    → any (λ v. bytes_eq v w) ws ≡ true
    → word_count words w ≤ max_count words ws
unfolding max_count
max_count-le words [] w h = ground arith
max_count-le words (v ∷ ws) w h = elim (Bool-cases (bytes_eq v w)) [
  | inl e ↦ rw (sym ((bytes_eq_iff v w).0 e)) (omega arith)
  | inr e ↦ ground (arith, max_count-le words ws w)
]

-- An answer that is let through is at least thirty bytes long and five words long without the white
-- space around it, and when it has ten words or more, none of them is more than a third of them.
pub accepted_quality :
    (response word : Bytes)
    → detect_refusal response ≡ false
    → any (λ v. bytes_eq v word) (fields (to_lower (trim_space response))) ≡ true
    → let words = fields (to_lower (trim_space response)) in
      (30 ≤ length (trim_space response))
      × (5 ≤ length words)
      × ((length words < 10) ⊎ (word_count words word ≤ length words / 3))
unfolding detect_refusal is_low_quality_response has_excessive_repetition
accepted_quality response word h there =
    let words = fields (to_lower (trim_space response)) in
    let most = max_count-le words words word there in
    (ground arith, ground arith, ground (arith, most))
