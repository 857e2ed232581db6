-- ===== src/Recording/Holds.antt =====
-- The time that frames stay on screen.
use chrome_live.Base.{
  ℕ, ◌+◌, ◌-◌, ◌≤◌, ◌≡◌, refl, List, [], ◌∷◌, length, All, sum_by, arith, ap, suc,
}
use chrome_live.Recording.{frame_holds, min_frame_hold, max_frame_hold, clamp_gap}

-- From one time to another there is no less than the shortest hold and no more than the longest.
abbrev pub IsHold : ℕ → ℕ → ℕ → Type 0
IsHold unit start end = (start + min_frame_hold unit ≤ end) × (end ≤ start + max_frame_hold unit)

-- Each gap to the next frame, and the last one to the stop, is as long as a hold may be.
abbrev pub IsPaced : ℕ → List ℕ → ℕ → Type 0
IsPaced unit [] stopped = Unit
IsPaced unit (a ∷ []) stopped = IsHold unit a stopped
IsPaced unit (a ∷ (b ∷ rest)) stopped = IsHold unit a b × IsPaced unit (b ∷ rest) stopped

clamp_gap-exact : (unit a b : ℕ) → IsHold unit a b → a + clamp_gap unit (b - a) ≡ b
clamp_gap-exact unit a b h = ground (arith, h.0, h.1)

abbrev pub IsClamped : ℕ → ℕ → Type 0
IsClamped unit hold = (min_frame_hold unit ≤ hold) × (hold ≤ max_frame_hold unit)

clamp_gap-IsClamped : (unit gap : ℕ) → IsClamped unit (clamp_gap unit gap)
clamp_gap-IsClamped unit gap = (ground arith, ground arith)

-- Whatever the times, there is one hold for each frame, and each is within the limits.
pub frame_holds_lem :
    (unit : ℕ) (times : List ℕ) (stopped : ℕ)
    → let holds = frame_holds unit times stopped in
      (length holds ≡ length times) × All (IsClamped unit) holds
unfolding frame_holds
frame_holds_lem unit [] stopped = (refl, tt)
frame_holds_lem unit (a ∷ []) stopped = (refl, (clamp_gap-IsClamped unit (stopped - a), tt))
frame_holds_lem unit (a ∷ (b ∷ rest)) stopped =
    let (counted, clamped) = frame_holds_lem unit (b ∷ rest) stopped in
    (ap suc counted, (clamp_gap-IsClamped unit (b - a), clamped))

-- Where each gap, the last one to the stop included, is within the limits of a hold, the holds fill
-- the time from the first frame to the stop.
pub frame_holds_tile :
    (unit a : ℕ) (times : List ℕ) (stopped : ℕ)
    → IsPaced unit (a ∷ times) stopped
    → a + sum_by (λ hold. hold) (frame_holds unit (a ∷ times) stopped) ≡ stopped
unfolding frame_holds
frame_holds_tile unit a [] stopped h = omega (arith, clamp_gap-exact unit a stopped h)
frame_holds_tile unit a (b ∷ rest) stopped h =
    omega (arith, clamp_gap-exact unit a b h.0, frame_holds_tile unit b rest stopped h.1)
