-- ===== src/AiClient/Pacing.antt =====
-- internal/adapter/ai/real/client.go: the spacing of calls to a provider. The workers of a process
-- share one atomic, the time of the last call in nanoseconds, 0 before the first. A round of the loop
-- is given the value that it loaded and the time that it read; the atomic may have changed since.
use mathlib.Core.Path.{subst}
use ai_cv_evaluator.Base.{
  ℕ, ◌+◌, ◌*◌, ◌≤◌, ◌<◌, ◌≡◌, refl, ◌≢◌, ◌⊎◌, inl, inr, List, [], ◌∷◌, arith, ◌==◌, if◌then◌else◌,
  half, sub64, mul64, slt, sle, time_sub, second,
}

-- `minGap`: the interval for one worker times the number of worker processes.
unfoldable pub min_gap : ℕ → ℕ → ℕ
min_gap interval replicas = mul64 interval (if slt replicas 1 then 1 else replicas)

abbrev pub groq_interval : ℕ
groq_interval = 4 * second

pub data Round : Type 0 where
  claimed retried : Round
  slept : ℕ → Round

-- `CompareAndSwap(prev, now)`, and the round that it ends.
abbrev swap : ℕ → ℕ → ℕ → Round × ℕ
swap prev now last = if last == prev then (claimed, now) else (retried, last)

-- One round of `waitOpenRouterMinInterval` and of `waitGroqMinInterval`, on the atomic `last`.
unfoldable pub wait_round : ℕ → ℕ → ℕ → ℕ → Round × ℕ
wait_round gap prev now last =
    let delta = time_sub now prev in
    if prev == 0
    then swap 0 now last
    else if sle gap delta
    then swap prev now last
    else (slept (sub64 gap delta), last)

-- What the workers do to the atomic, in the order of its accesses: a round of some worker, and
-- `markOpenRouterCall` or `markGroqCall`, which store the time of a call.
pub data Access : Type 0 where
  round : ℕ → ℕ → Access
  mark : ℕ → Access

-- The times of the calls that are let through.
unfoldable pub claims : ℕ → ℕ → List Access → List ℕ
claims gap last [] = []
claims gap last (round prev now ∷ acs) =
    let (r, last') = wait_round gap prev now last in
    elim r [
      | claimed ↦ now ∷ claims gap last' acs
      | retried ↦ claims gap last' acs
      | slept d ↦ claims gap last' acs
    ]
claims gap last (mark now ∷ acs) = claims gap now acs

-- The clock does not run backwards between the last value stored and a mark.
unfoldable pub IsForward : ℕ → ℕ → List Access → Type 0
IsForward gap last [] = Unit
IsForward gap last (round prev now ∷ acs) = IsForward gap (wait_round gap prev now last).1 acs
IsForward gap last (mark now ∷ acs) = (last ≤ now) × IsForward gap now acs

-- Each time is a gap after the one before; 0 stands for no call before.
unfoldable pub IsSpaced : ℕ → ℕ → List ℕ → Type 0
IsSpaced gap last [] = Unit
IsSpaced gap last (t ∷ ts) = ((last ≡ 0) ⊎ (last + gap ≤ t)) × IsSpaced gap t ts

wait_round-claimed :
    (gap prev now last : ℕ)
    → gap < half
    → (wait_round gap prev now last).0 ≡ claimed
    → ((wait_round gap prev now last).1 ≡ now) × ((last ≡ 0) ⊎ (last + gap ≤ now))
unfolding wait_round
wait_round-claimed gap prev now last small h = ground arith

wait_round-other :
    (gap prev now last : ℕ)
    → (wait_round gap prev now last).0 ≢ claimed
    → (wait_round gap prev now last).1 ≡ last
unfolding wait_round
wait_round-other gap prev now last h = ground arith

Round-cases : (r : Round) → (r ≡ claimed) ⊎ ((r ≡ retried) ⊎ ((d : ℕ) × (r ≡ slept d)))
Round-cases claimed = inl refl
Round-cases retried = inr (inl refl)
Round-cases (slept d) = inr (inr (d, refl))

IsSpaced-earlier :
    (gap last later : ℕ) (ts : List ℕ) → last ≤ later → IsSpaced gap later ts → IsSpaced gap last ts
unfolding IsSpaced
IsSpaced-earlier gap last later [] h s = s
IsSpaced-earlier gap last later (t ∷ ts) h s = ground (arith, s)

-- However the rounds of the workers interleave, and whatever they loaded before, two calls that are
-- let through are the gap apart at least, as long as no mark stores an earlier time than was there.
pub claims-IsSpaced :
    (gap last : ℕ) (acs : List Access)
    → gap < half
    → IsForward gap last acs
    → IsSpaced gap last (claims gap last acs)
unfolding claims IsForward IsSpaced
claims-IsSpaced gap last [] small forward = tt
claims-IsSpaced gap last (mark now ∷ acs) small forward =
    IsSpaced-earlier gap last now (claims gap now acs) forward.0
      (claims-IsSpaced gap now acs small forward.1)
claims-IsSpaced gap last (round prev now ∷ acs) small forward =
    let at : ℕ → Type 0 = λ l. IsSpaced gap l (claims gap (wait_round gap prev now last).1 acs) in
    let later = claims-IsSpaced gap (wait_round gap prev now last).1 acs small forward in
    elim (Round-cases (wait_round gap prev now last).0) [
      | inl e ↦
          let (stored, apart) = wait_round-claimed gap prev now last small e in
          rw (e, IsSpaced, claims) (apart, subst at stored later)
      | inr (inl e) ↦
          rw (e, IsSpaced, claims)
            (subst at (wait_round-other gap prev now last (ground arith)) later)
      | inr (inr (d, e)) ↦
          rw (e, IsSpaced, claims)
            (subst at (wait_round-other gap prev now last (ground arith)) later)
    ]
