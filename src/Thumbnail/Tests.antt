-- ===== src/Thumbnail/Tests.antt =====
-- Runs of the thumbnailer, and each theorem at a concrete input.
use chrome_live.Base.{ℕ, String, ◌≡◌, refl, none, some, List, [], ◌∷◌, ◌++◌, map, arith}
use chrome_live.Base.Exec.{Result, ok, err, cdp_error, thumbnail_error}
use chrome_live.Thumbnail.{Thumbnailer, created, begin_capture}
use chrome_live.Thumbnail.Runs.{Op, attached, detached, asked, entered, shot, run}
use chrome_live.Thumbnail.Honest.{IsHonest, created-IsHonest, run-IsHonest}
use chrome_live.Thumbnail.Screenshot.{
  Metrics, IsShot, screenshot, screenshot-IsShot, handle_thumbnail,
}
use chrome_live.Thumbnail.Queue.{rounds, answered, queued, captures_answered}

-- Two requests, a screenshot for the first, the cache for the second, a request after the cache's
-- time, and a connection that goes while its screenshot is taken.
abbrev sample_ops : List (Op String)
sample_ops =
    attached
    ∷ asked 1 0 ("S" ∷ "Z" ∷ [])
    ∷ asked 2 0 ("S" ∷ "Z" ∷ [])
    ∷ entered 0
    ∷ entered 10
    ∷ shot 100 (ok "a")
    ∷ entered 200
    ∷ asked 3 5100 ("S" ∷ "Z" ∷ [])
    ∷ entered 5100
    ∷ detached
    ∷ attached
    ∷ shot 5200 (ok "b")
    ∷ asked 4 5300 []
    ∷ []

run-IsHonest_example : IsHonest (run sample_ops (created String))
run-IsHonest_example = run-IsHonest sample_ops (created String) created-IsHonest

sample_run :
    (map {B = ℕ × Result String} (λ r. (r.id, r.result)) (run sample_ops (created String)).returned
      ≡ (1, ok "a") ∷ (2, ok "a") ∷ (3, ok "b") ∷ (4, err thumbnail_error) ∷ [])
    × ((run sample_ops (created String)).cache ≡ none)
unfolding run
sample_run = (refl, refl)

abbrev two_waiting : Thumbnailer String
two_waiting = run (attached ∷ asked 1 0 ("S" ∷ []) ∷ asked 2 0 ("S" ∷ []) ∷ []) (created String)

two_free : two_waiting.shooting ≡ none
unfolding run begin_capture
two_free = refl

captures_answered_example :
    let t' = rounds ((0, 50, err cdp_error) ∷ (60, 90, ok "c") ∷ []) two_waiting in
    (t'.waiting ≡ [])
    × (t'.shooting ≡ none)
    × (answered t' ≡ answered two_waiting ++ queued two_waiting.waiting)
unfolding run begin_capture
captures_answered_example =
    captures_answered ((0, 50, err cdp_error) ∷ (60, 90, ok "c") ∷ []) two_waiting.waiting
      two_waiting two_free refl (omega arith)

abbrev sample_metrics : Metrics
sample_metrics = record {
  css_visual_viewport = some (record { client_width = some 1536; client_height = some 864 });
  css_layout_viewport = none;
}

screenshot-IsShot_example : IsShot ok (ok sample_metrics) (λ clip. ok (some "/9j/")) "/9j/"
unfolding screenshot
screenshot-IsShot_example =
    (screenshot-IsShot ok (ok sample_metrics) (λ clip. ok (some "/9j/")) "/9j/").0 refl

answers :
    ((handle_thumbnail {J = String} (err thumbnail_error)).status ≡ 503)
    × ((handle_thumbnail {J = String} (ok "/9j/")).status ≡ 200)
unfolding handle_thumbnail
answers = (refl, refl)
