-- ===== src/AiClient/Providers/Asking.antt =====
-- internal/adapter/ai/real/client.go: which accounts are asked by the parts of `ChatJSONWithRetry`.
use ai_cv_evaluator.Base.{
  ℕ, ◌+◌, ◌≡◌, refl, ap, ◌∙◌, ◌⊎◌, inl, inr, Bool, true, false, ◌&&◌, ◌||◌, Option, none, some,
  List, [], ◌∷◌, arith, ◌==◌, any, Bytes,
}
use ai_cv_evaluator.Domain.{Error}
use ai_cv_evaluator.AiClient.Switching.{State}
use ai_cv_evaluator.AiClient.Providers.{
  Account, groq1, groq2, open_router1, open_router2, Chat, answers, fails, panics, Asked, Session,
  note, after_reply, then_step, ask_if, groq_steps, or_noted, open_router_steps,
}

abbrev pub rank : Account → ℕ
rank groq1 = 0
rank groq2 = 1
rank open_router1 = 2
rank open_router2 = 3

abbrev pub is_asked : Account → List Asked → Bool
is_asked a xs = any (λ x. rank x.account == rank a) xs

-- The reply ends the function: an answer or a panic.
abbrev pub is_final : Chat → Bool
is_final (answers text) = true
is_final (fails e) = false
is_final panics = true

abbrev pub has_ended : Option Chat → Bool
has_ended none = false
has_ended (some r) = is_final r

note-log : (a : Account) (e : Error) (s : Session) → (note a e s).log ≡ s.log
note-log groq1 e s = refl
note-log groq2 e s = refl
note-log open_router1 e s = refl
note-log open_router2 e s = refl

abbrev EndsOrPasses : Option Chat → Type 0
EndsOrPasses o = (has_ended o ≡ true) ⊎ (o ≡ none)

after_reply-log :
    (a : Account) (r : Chat) (s : Session)
    → EndsOrPasses (after_reply a r s).0 × ((after_reply a r s).1.log ≡ s.log)
after_reply-log a (answers text) s = (inl refl, refl)
after_reply-log a (fails e) s = (inr refl, note-log a e s)
after_reply-log a panics s = (inl refl, refl)

pub ask_if-ends :
    (b : Bool) (a : Account) (call : State → Chat × State) (s : Session)
    → EndsOrPasses (ask_if b a call s).0
ask_if-ends false a call s = inr refl
ask_if-ends true a call s = (after_reply-log a (call s.state).0 _).0

-- The account is asked exactly if the test passes, and no other one is.
pub ask_if-is_asked :
    (b : Bool) (a c : Account) (call : State → Chat × State) (s : Session)
    → is_asked c (ask_if b a call s).1.log ≡ ((b && (rank a == rank c)) || is_asked c s.log)
ask_if-is_asked false a c call s = refl
ask_if-is_asked true a c call s =
    ap (is_asked c)
      (after_reply-log a (call s.state).0 (record s {
        state = (call s.state).1;
        log = record { account = a; reply = (call s.state).0 } ∷ s.log;
      })).1

-- The first account of Groq was asked if `free1`; and the function ended, or went on after it had asked
-- the second one if `free2`, and none of OpenRouter.
abbrev pub GroqAsked : Bool → Bool → Option Chat × Session → Type 0
GroqAsked free1 free2 x =
    (is_asked groq1 x.1.log ≡ free1)
    × ((has_ended x.0 ≡ true)
        ⊎ ((x.0 ≡ none)
            × (is_asked groq2 x.1.log ≡ free2)
            × (is_asked open_router1 x.1.log ≡ false)
            × (is_asked open_router2 x.1.log ≡ false)))

second_groq :
    (free1 free2 : Bool) (call : State → Chat × State) (x : Option Chat × Session)
    → EndsOrPasses x.0
    → is_asked groq1 x.1.log ≡ free1
    → is_asked groq2 x.1.log ≡ false
    → is_asked open_router1 x.1.log ≡ false
    → is_asked open_router2 x.1.log ≡ false
    → GroqAsked free1 free2 (then_step x (λ t. ask_if free2 groq2 call t))
second_groq free1 free2 call (some r, t) (inl e) h1 h2 h3 h4 = (h1, inl e)
second_groq free1 free2 call (some r, t) (inr e) h1 h2 h3 h4 = ground arith
second_groq free1 free2 call (none, t) e h1 h2 h3 h4 =
    let first : is_asked groq1 (ask_if free2 groq2 call t).1.log ≡ free1 =
      ask_if-is_asked free2 groq2 groq1 call t ∙ ground (arith, h1) in
    elim (ask_if-ends free2 groq2 call t) [
      | inl ended ↦ (first, inl ended)
      | inr passed ↦ (
        first,
        inr (
          passed,
          ask_if-is_asked free2 groq2 groq2 call t ∙ ground (arith, h2),
          ask_if-is_asked free2 groq2 open_router1 call t ∙ ground (arith, h3),
          ask_if-is_asked free2 groq2 open_router2 call t ∙ ground (arith, h4),
        ),
      )
    ]

pub groq_steps-is_asked :
    (free1 free2 any_key : Bool) (call1 call2 : State → Chat × State) (s : Session)
    → s.log ≡ []
    → GroqAsked free1 free2 (groq_steps free1 free2 any_key call1 call2 s)
unfolding groq_steps
groq_steps-is_asked false false false call1 call2 s e = rw (e) (refl, inr (refl, refl, refl, refl))
groq_steps-is_asked false false true call1 call2 s e = rw (e) (refl, inr (refl, refl, refl, refl))
groq_steps-is_asked false true any_key call1 call2 s e =
    second_groq false true call2 (none, s) (inr refl) (rw (e) refl) (rw (e) refl) (rw (e) refl)
      (rw (e) refl)
groq_steps-is_asked true free2 any_key call1 call2 s e =
    second_groq true free2 call2 (ask_if true groq1 call1 s) (ask_if-ends true groq1 call1 s)
      (ask_if-is_asked true groq1 groq1 call1 s)
      (ask_if-is_asked true groq1 groq2 call1 s ∙ rw (e) refl)
      (ask_if-is_asked true groq1 open_router1 call1 s ∙ rw (e) refl)
      (ask_if-is_asked true groq1 open_router2 call1 s ∙ rw (e) refl)

-- The accounts of Groq are not asked again; and the function ended, or asked the first account of
-- OpenRouter if `b1` and the second one if `b2`.
abbrev pub OpenRouterAsked : Session → Bool → Bool → Option Chat × Session → Type 0
OpenRouterAsked s b1 b2 x =
    (is_asked groq1 x.1.log ≡ is_asked groq1 s.log)
    × (is_asked groq2 x.1.log ≡ is_asked groq2 s.log)
    × ((has_ended x.0 ≡ true)
        ⊎ ((x.0 ≡ none)
            × (is_asked open_router1 x.1.log ≡ b1)
            × (is_asked open_router2 x.1.log ≡ b2)))

-- The session in which the first account was asked, or passed over, is `x`.
second_open_router :
    (s : Session) (b1 : Bool) (b2 : Session → Bool) (tick : Session → Session)
    (call : State → Chat × State) (x : Option Chat × Session)
    → ((t : Session) → (tick t).log ≡ t.log)
    → EndsOrPasses x.0
    → is_asked groq1 x.1.log ≡ is_asked groq1 s.log
    → is_asked groq2 x.1.log ≡ is_asked groq2 s.log
    → is_asked open_router1 x.1.log ≡ b1
    → is_asked open_router2 x.1.log ≡ false
    → OpenRouterAsked s b1 (b2 x.1) (then_step x (λ t. ask_if (b2 t) open_router2 call (tick t)))
second_open_router s b1 b2 tick call (some r, t) k (inl e) h1 h2 h3 h4 = (h1, h2, inl e)
second_open_router s b1 b2 tick call (some r, t) k (inr e) h1 h2 h3 h4 = ground arith
second_open_router s b1 b2 tick call (none, t) k e h1 h2 h3 h4 =
    let asked : (c : Account)
        → is_asked c (ask_if (b2 t) open_router2 call (tick t)).1.log
          ≡ ((b2 t && (2 + 1 == rank c)) || is_asked c t.log) =
      λ c.
        ask_if-is_asked (b2 t) open_router2 c call (tick t)
        ∙ ap (λ xs. (b2 t && (2 + 1 == rank c)) || is_asked c xs) (k t) in
    let g1 : is_asked groq1 (ask_if (b2 t) open_router2 call (tick t)).1.log
        ≡ is_asked groq1 s.log =
      asked groq1 ∙ ground (arith, h1) in
    let g2 : is_asked groq2 (ask_if (b2 t) open_router2 call (tick t)).1.log
        ≡ is_asked groq2 s.log =
      asked groq2 ∙ ground (arith, h2) in
    elim (ask_if-ends (b2 t) open_router2 call (tick t)) [
      | inl ended ↦ (g1, g2, inl ended)
      | inr passed ↦ (
        g1,
        g2,
        inr (
          passed,
          asked open_router1 ∙ ground (arith, h3),
          asked open_router2 ∙ ground (arith, h4),
        ),
      )
    ]

noted-OpenRouterAsked :
    (s : Session) (b1 b2 : Bool) (text : Bytes) (x : Option Chat × Session)
    → OpenRouterAsked s b1 b2 x
    → OpenRouterAsked s b1 b2 (then_step x (λ t. (none, or_noted text t)))
noted-OpenRouterAsked s b1 b2 text (none, t) h = h
noted-OpenRouterAsked s b1 b2 text (some r, t) h = h

pub open_router_steps-is_asked :
    (b1 b2 : Session → Bool) (tick : Session → Session) (call1 call2 : State → Chat × State)
    (s : Session)
    → ((t : Session) → (tick t).log ≡ t.log)
    → is_asked open_router1 s.log ≡ false
    → is_asked open_router2 s.log ≡ false
    → OpenRouterAsked s (b1 s) (b2 (ask_if (b1 s) open_router1 call1 (tick s)).1) (
        open_router_steps
          (λ t. ask_if (b1 t) open_router1 call1 (tick t))
          (λ t. ask_if (b2 t) open_router2 call2 (tick t))
          s)
unfolding open_router_steps
open_router_steps-is_asked b1 b2 tick call1 call2 s k h3 h4 =
    let asked : (c : Account)
        → is_asked c (ask_if (b1 s) open_router1 call1 (tick s)).1.log
          ≡ ((b1 s && (2 == rank c)) || is_asked c s.log) =
      λ c.
        ask_if-is_asked (b1 s) open_router1 c call1 (tick s)
        ∙ ap (λ xs. (b1 s && (2 == rank c)) || is_asked c xs) (k s) in
    noted-OpenRouterAsked s (b1 s) (b2 (ask_if (b1 s) open_router1 call1 (tick s)).1) _
      (then_step (ask_if (b1 s) open_router1 call1 (tick s))
        (λ t. ask_if (b2 t) open_router2 call2 (tick t)))
      (second_open_router s (b1 s) b2 tick call2 (ask_if (b1 s) open_router1 call1 (tick s)) k
        (ask_if-ends (b1 s) open_router1 call1 (tick s)) (asked groq1 ∙ ground arith)
        (asked groq2 ∙ ground arith) (asked open_router1 ∙ ground (arith, h3))
        (asked open_router2 ∙ ground (arith, h4)))
