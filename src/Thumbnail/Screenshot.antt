-- ===== src/Thumbnail/Screenshot.antt =====
-- `_screenshot` of browser-trace/thumbnail.py on what its two calls return or raise, and the answer
-- that `handle_thumbnail` of browser-trace/server.py makes of a capture. An object without keys is
-- taken as absent, which is how the code reads it; `decode` is `base64.b64decode`.
use chrome_live.Base.{
  ℕ, ◌<◌, ◌↔◌, ◌≡◌, refl, ap, ◌∙◌, arith, Bool-cases, inl, inr, String, false, ◌||◌, ◌⊎◌, Option,
  none, some, get_or, nat_beq, if◌then◌else◌, ◌==◌, string_key,
}
use chrome_live.Base.Exec.{thumbnail_error, timeout_error, Result, ok, err}
use chrome_live.Traffic.Hosts.{non_empty}

-- `_TARGET_WIDTH`
abbrev pub target_width : ℕ
target_width = 320

pub record Viewport : Type 0 where
  pub client_width : Option ℕ
  pub client_height : Option ℕ

-- the result of `Page.getLayoutMetrics`
pub record Metrics : Type 0 where
  pub css_visual_viewport : Option Viewport
  pub css_layout_viewport : Option Viewport

-- The `clip` of `Page.captureScreenshot`; its scale is `scale_by / scale_of`.
pub record Clip : Type 0 where
  pub width : ℕ
  pub height : ℕ
  pub scale_by : ℕ
  pub scale_of : ℕ

abbrev pub or_else {ℓ} : {A : Type ℓ} → Option A → Option A → Option A
or_else (some a) o = some a
or_else none o = o

-- `viewport.get(k) or 0`
abbrev pub dimension : (Viewport → Option ℕ) → Option Viewport → ℕ
dimension side none = 0
dimension side (some v) = get_or (side v) 0

abbrev pub viewport : Metrics → Option Viewport
viewport m = or_else m.css_visual_viewport m.css_layout_viewport

unfoldable pub clip_of : Metrics → Result Clip
clip_of m =
    let width = dimension (λ v. v.client_width) (viewport m) in
    let height = dimension (λ v. v.client_height) (viewport m) in
    if nat_beq width 0 || nat_beq height 0
    then err thumbnail_error
    else ok (record { width = width; height = height; scale_by = target_width; scale_of = width })

module _ {J : Type 0} (decode : String → Result J) where
  -- the base64 text of `Page.captureScreenshot`
  unfoldable pub decode_shot : Option String → Result J
  decode_shot none = err thumbnail_error
  decode_shot (some text) = decode text

  unfoldable pub receive_shot : Result (Option String) → Result J
  unfolding decode_shot
  receive_shot (err e) = err e
  receive_shot (ok text) = decode_shot (non_empty text)

  unfoldable pub take_shot : Result Clip → (Clip → Result (Option String)) → Result J
  unfolding receive_shot
  take_shot (err e) call = err e
  take_shot (ok clip) call = receive_shot (call clip)

  -- The second argument is the call of `Page.captureScreenshot`.
  unfoldable pub screenshot : Result Metrics → (Clip → Result (Option String)) → Result J
  unfolding take_shot clip_of
  screenshot (err e) call = err e
  screenshot (ok metrics) call = take_shot (clip_of metrics) call

-- An answer of the HTTP server; an exception that no handler takes is a 500.
pub record Answer (J : Type 0) : Type 0 where
  pub status : ℕ
  pub body : Option J

unfoldable pub handle_thumbnail : {J : Type 0} → Result J → Answer J
handle_thumbnail (ok jpeg) = record { status = 200; body = some jpeg }
handle_thumbnail (err thumbnail_error) = record { status = 503; body = none }
handle_thumbnail (err timeout_error) = record { status = 504; body = none }
handle_thumbnail (err e) = record { status = 500; body = none }

clip_of-eq :
    (m : Metrics) (clip : Clip)
    → clip_of m ≡ ok clip
    → let width = dimension (λ v. v.client_width) (viewport m) in
      let height = dimension (λ v. v.client_height) (viewport m) in
      (0 < width)
      × (0 < height)
      × (clip
          ≡ record { width = width; height = height; scale_by = target_width; scale_of = width })
unfolding clip_of
clip_of-eq m clip h = (ground arith, ground arith, ground arith)

-- Of two viewports, `v` is the first, or the second where there is no first.
abbrev Prefers : Option Viewport → Option Viewport → Viewport → Type 0
Prefers a b v = (a ≡ some v) ⊎ ((a ≡ none) × (b ≡ some v))

given_side : (o : Option ℕ) → 0 < get_or o 0 → o ≡ some (get_or o 0)
given_side none h = ground (arith, h)
given_side (some n) h = refl

viewport-Prefers :
    (a b : Option Viewport)
    → 0 < dimension (λ v. v.client_width) (or_else a b)
    → 0 < dimension (λ v. v.client_height) (or_else a b)
    → (v : Viewport) × Prefers a b v
      × (v.client_width ≡ some (dimension (λ v. v.client_width) (or_else a b)))
      × (v.client_height ≡ some (dimension (λ v. v.client_height) (or_else a b)))
viewport-Prefers none none w h = ground (arith, w)
viewport-Prefers none (some v) w h =
    (v, inr (refl, refl), given_side v.client_width w, given_side v.client_height h)
viewport-Prefers (some v) b w h =
    (v, inl refl, given_side v.client_width w, given_side v.client_height h)

Prefers-or_else : (a b : Option Viewport) (v : Viewport) → Prefers a b v → or_else a b ≡ some v
Prefers-or_else a b v (inl p) = rw p refl
Prefers-or_else a b v (inr (p, q)) = rw p q

dimension-some :
    (side : Viewport → Option ℕ) (o : Option Viewport) (v : Viewport) (n : ℕ)
    → o ≡ some v
    → side v ≡ some n
    → n ≡ dimension side o
dimension-some side o v n p q = rw p (rw q refl)

module _ {J : Type 0} (decode : String → Result J) where
  -- A screenshot that is returned: Chrome has reported a viewport (the visual one, or the layout
  -- viewport where there is no visual one) that is not empty, has been asked for a clip of that size,
  -- scaled to a width of 320, and has returned a text that is not empty, of which the screenshot is
  -- the decoding.
  pub record IsShot (metrics : Result Metrics) (call : Clip → Result (Option String)) (jpeg : J)
      : Type 0 where
    pub reported : Metrics
    pub clip : Clip
    pub text : String
    pub metrics_ok : metrics ≡ ok reported
    pub wide : 0 < clip.width
    pub high : 0 < clip.height
    pub view : Viewport
    pub prefers : Prefers reported.css_visual_viewport reported.css_layout_viewport view
    pub width_of : view.client_width ≡ some clip.width
    pub height_of : view.client_height ≡ some clip.height
    pub scale_by : clip.scale_by ≡ 320
    pub scale_of : clip.scale_of ≡ clip.width
    pub call_ok : call clip ≡ ok (some text)
    pub text_ne : (text == "") ≡ false
    pub decoded : decode text ≡ ok jpeg

  decode_shot-eq :
      (o : Option String) (jpeg : J)
      → decode_shot decode (non_empty o) ≡ ok jpeg
      → (text : String) × (o ≡ some text) × ((text == "") ≡ false) × (decode text ≡ ok jpeg)
  unfolding decode_shot
  decode_shot-eq none jpeg h = cc
  decode_shot-eq (some text) jpeg h = elim (Bool-cases (text == "")) [
    | inl empty ↦ cc (rw empty at h)
    | inr given ↦ (text, refl, given, rw given at h)
  ]

  received :
      (m : Metrics) (clip : Clip) (call : Clip → Result (Option String))
      (r : Result (Option String)) (jpeg : J)
      → clip_of m ≡ ok clip
      → call clip ≡ r
      → receive_shot decode r ≡ ok jpeg
      → IsShot (ok m) call jpeg
  unfolding receive_shot
  received m clip call (err e) jpeg p q h = cc
  received m clip call (ok o) jpeg p q h =
      let (wide, high, exact) = clip_of-eq m clip p in
      let (view, prefers, width_of, height_of) =
        viewport-Prefers m.css_visual_viewport m.css_layout_viewport wide high in
      let (text, given, text_ne, decoded) = decode_shot-eq o jpeg h in
      record {
        reported = m;
        clip = clip;
        text = text;
        metrics_ok = refl;
        wide = rw exact wide;
        high = rw exact high;
        view = view;
        prefers = prefers;
        width_of = rw exact width_of;
        height_of = rw exact height_of;
        scale_by = rw exact refl;
        scale_of = rw exact refl;
        call_ok = q ∙ ap ok given;
        text_ne = text_ne;
        decoded = decoded;
      }

  taken :
      (m : Metrics) (r : Result Clip) (call : Clip → Result (Option String)) (jpeg : J)
      → clip_of m ≡ r
      → take_shot decode r call ≡ ok jpeg
      → IsShot (ok m) call jpeg
  unfolding take_shot
  taken m (err e) call jpeg p h = cc
  taken m (ok clip) call jpeg p h = received m clip call (call clip) jpeg p refl h

  screenshot_ok :
      (metrics : Result Metrics) (call : Clip → Result (Option String)) (jpeg : J)
      → screenshot decode metrics call ≡ ok jpeg
      → IsShot metrics call jpeg
  unfolding screenshot
  screenshot_ok (err e) call jpeg h = cc
  screenshot_ok (ok m) call jpeg h = taken m (clip_of m) call jpeg refl h

  clip_of_ok :
      (m : Metrics) (clip : Clip)
      → 0 < clip.width
      → 0 < clip.height
      → clip.width ≡ dimension (λ v. v.client_width) (viewport m)
      → clip.height ≡ dimension (λ v. v.client_height) (viewport m)
      → clip.scale_by ≡ target_width
      → clip.scale_of ≡ clip.width
      → clip_of m ≡ ok clip
  unfolding clip_of
  clip_of_ok m clip w h we he sb so = ground arith

  screenshot_returns :
      (metrics : Result Metrics) (call : Clip → Result (Option String)) (jpeg : J)
      → IsShot metrics call jpeg
      → screenshot decode metrics call ≡ ok jpeg
  unfolding screenshot take_shot receive_shot decode_shot
  screenshot_returns metrics call jpeg s =
      let v =
        Prefers-or_else s.reported.css_visual_viewport s.reported.css_layout_viewport s.view
          s.prefers in
      let width_of =
        dimension-some (λ v. v.client_width) (viewport s.reported) s.view s.clip.width v
          s.width_of in
      let height_of =
        dimension-some (λ v. v.client_height) (viewport s.reported) s.view s.clip.height v
          s.height_of in
      let c = clip_of_ok s.reported s.clip s.wide s.high width_of height_of s.scale_by s.scale_of in
      rw (s.metrics_ok, c, s.call_ok, s.text_ne) s.decoded

  -- A screenshot is returned if and only if Chrome has reported a viewport (the visual viewport, or
  -- the layout viewport where there is no visual one) whose width and height are given and not zero,
  -- and, asked for a clip of that width and height with the scale 320 / width, has returned a text
  -- that is not empty; the screenshot is the decoding of that text.
  pub screenshot-IsShot :
      (metrics : Result Metrics) (call : Clip → Result (Option String)) (jpeg : J)
      → (screenshot decode metrics call ≡ ok jpeg) ↔ IsShot metrics call jpeg
  screenshot-IsShot metrics call jpeg =
      (screenshot_ok metrics call jpeg, screenshot_returns metrics call jpeg)
