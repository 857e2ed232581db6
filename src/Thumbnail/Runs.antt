-- ===== src/Thumbnail/Runs.antt =====
-- What can happen to the thumbnailer, in any order: connections that come and go, requests, the lock,
-- screenshots.
use chrome_live.Base.{ℕ, String, List, [], ◌∷◌}
use chrome_live.Base.Exec.{Result}
use chrome_live.Thumbnail.{Thumbnailer, attach, detach, begin_capture, enter_lock, finish_shot}

pub data Op (J : Type 0) : Type 0 where
  attached detached : Op J
  asked : ℕ → ℕ → List String → Op J
  entered : ℕ → Op J
  shot : ℕ → Result J → Op J

module _ {J : Type 0} where
  unfoldable pub step : Op J → Thumbnailer J → Thumbnailer J
  unfolding attach detach begin_capture enter_lock finish_shot
  step attached t = attach t
  step detached t = detach t
  step (asked id now sessions) t = begin_capture id now sessions t
  step (entered now) t = enter_lock now t
  step (shot now r) t = finish_shot now r t

  unfoldable pub run : List (Op J) → Thumbnailer J → Thumbnailer J
  unfolding step
  run [] t = t
  run (op ∷ ops) t = run ops (step op t)
