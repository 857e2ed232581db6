-- ===== src/Logs/Delivery.antt =====
-- Where a record goes after `configure`, whatever was configured before.
use mathlib.Core.Path.{subst}
use mathlib.Core.List.{append_assoc, append-nil}
use chrome_live.Base.{
  ℕ, ◌<◌, true, false, Option, none, some, List, [], ◌∷◌, ◌++◌, ◌≡◌, refl, ap, ◌∙◌, sym, get_or,
  leb, arith, Bool, Bool-cases, inl, inr, if◌then◌else◌,
}
use chrome_live.Base.Text.{Text}
use chrome_live.Base.Exec.{Exception, Outcome, ok, err}
use chrome_live.Logs.{
  default_path, debug_level, Sink, Handler, Logging, open_sinks, add_sinks, configure, handle,
  deliver, set_path, set_up, make_handler,
}
use chrome_live.Logs.Sinks.{
  with_mark, with_mark-append, with_mark-idempotent, All-with_mark, IsUnique-with_mark,
  make_handler-IsLogging, drop_marked_lem, IsLogging,
}

-- one call of `configure`
pub record Setting : Type 0 where
  pub path : Option Text
  pub stdout_level : ℕ
  pub otel : Option ℕ
  pub opening : Outcome

abbrev pub configured : Setting → Logging → Logging
configured c s = (configure c.path c.stdout_level c.otel c.opening s).1

unfoldable pub run : List Setting → Logging → Logging
run [] s = s
run (c ∷ rest) s = run rest (configured c s)

-- the logger without the handlers that have the mark
abbrev cleared : Option Text → Logging → Logging
cleared path s = record s {
  path = get_or path default_path;
  handlers = with_mark false s.handlers;
  closed = s.closed ++ with_mark true s.handlers;
  level = debug_level;
  propagate = false;
}

configure_lem :
    (c : Setting) (s : Logging)
    → IsLogging s
    → configure c.path c.stdout_level c.otel c.opening s
      ≡ open_sinks c.opening c.stdout_level c.otel (cleared c.path s)
unfolding configure
configure_lem c s i =
    ap (λ (x : Logging). open_sinks c.opening c.stdout_level c.otel (set_up x))
      (drop_marked_lem [] s.handlers (set_path c.path s) refl i.unique)

cleared-IsLogging : (path : Option Text) (s : Logging) → IsLogging s → IsLogging (cleared path s)
cleared-IsLogging path s i = record {
  unique = IsUnique-with_mark false s.handlers i.unique;
  below = All-with_mark (λ h. h.id < s.made) false s.handlers i.below;
}

add_sinks-IsLogging :
    (level : ℕ) (otel : Option ℕ) (s : Logging) → IsLogging s → IsLogging (add_sinks level otel s)
add_sinks-IsLogging level none s i =
    make_handler-IsLogging Sink.console level (make_handler (Sink.file s.path) debug_level s)
      (make_handler-IsLogging (Sink.file s.path) debug_level s i)
add_sinks-IsLogging level (some l) s i =
    make_handler-IsLogging Sink.telemetry l
      (make_handler Sink.console level (make_handler (Sink.file s.path) debug_level s))
      (make_handler-IsLogging Sink.console level (make_handler (Sink.file s.path) debug_level s)
        (make_handler-IsLogging (Sink.file s.path) debug_level s i))

open_sinks-IsLogging :
    (opening : Outcome) (level : ℕ) (otel : Option ℕ) (s : Logging)
    → IsLogging s
    → IsLogging (open_sinks opening level otel s).1
open_sinks-IsLogging (err e) level otel s i = i
open_sinks-IsLogging (ok u) level otel s i = add_sinks-IsLogging level otel s i

pub configured-IsLogging : (c : Setting) (s : Logging) → IsLogging s → IsLogging (configured c s)
configured-IsLogging c s i =
    subst (λ (x : Outcome × Logging). IsLogging x.1) (sym (configure_lem c s i))
      (open_sinks-IsLogging c.opening c.stdout_level c.otel (cleared c.path s)
        (cleared-IsLogging c.path s i))

make_handler-unmarked :
    (sink : Sink) (level : ℕ) (s : Logging)
    → with_mark false (make_handler sink level s).handlers ≡ with_mark false s.handlers
unfolding with_mark
make_handler-unmarked sink level s =
    with_mark-append false s.handlers
      (record { id = s.made; sink = sink; level = level; marked = true } ∷ [])
    ∙ append-nil (with_mark false s.handlers)

add_sinks-unmarked :
    (level : ℕ) (otel : Option ℕ) (s : Logging)
    → with_mark false (add_sinks level otel s).handlers ≡ with_mark false s.handlers
add_sinks-unmarked level none s =
    make_handler-unmarked Sink.console level (make_handler (Sink.file s.path) debug_level s)
    ∙ make_handler-unmarked (Sink.file s.path) debug_level s
add_sinks-unmarked level (some l) s =
    let s' = make_handler (Sink.file s.path) debug_level s in
    make_handler-unmarked Sink.telemetry l (make_handler Sink.console level s')
    ∙ make_handler-unmarked Sink.console level s'
    ∙ make_handler-unmarked (Sink.file s.path) debug_level s

open_sinks-outcome :
    (opening : Outcome) (level : ℕ) (otel : Option ℕ) (s : Logging)
    → (open_sinks opening level otel s).0 ≡ opening
open_sinks-outcome (err e) level otel s = refl
open_sinks-outcome (ok u) level otel s = refl

-- the handlers that were not made by `configure` stay
open_sinks-unmarked :
    (opening : Outcome) (level : ℕ) (otel : Option ℕ) (s : Logging)
    → with_mark false (open_sinks opening level otel s).1.handlers ≡ with_mark false s.handlers
open_sinks-unmarked (err e) level otel s = refl
open_sinks-unmarked (ok u) level otel s = add_sinks-unmarked level otel s

pub configured-unmarked :
    (c : Setting) (s : Logging)
    → IsLogging s
    → with_mark false (configured c s).handlers ≡ with_mark false s.handlers
configured-unmarked c s i =
    ap (λ (x : Outcome × Logging). with_mark false x.1.handlers) (configure_lem c s i)
    ∙ open_sinks-unmarked c.opening c.stdout_level c.otel (cleared c.path s)
    ∙ with_mark-idempotent s.handlers

pub configure_result :
    (c : Setting) (s : Logging)
    → IsLogging s
    → (configure c.path c.stdout_level c.otel c.opening s).0 ≡ c.opening
configure_result c s i =
    ap (λ (x : Outcome × Logging). x.0) (configure_lem c s i)
    ∙ open_sinks-outcome c.opening c.stdout_level c.otel (cleared c.path s)

run-IsLogging : (cs : List Setting) (s : Logging) → IsLogging s → IsLogging (run cs s)
unfolding run
run-IsLogging [] s i = i
run-IsLogging (c ∷ cs) s i = run-IsLogging cs (configured c s) (configured-IsLogging c s i)

run-unmarked :
    (cs : List Setting) (s : Logging)
    → IsLogging s
    → with_mark false (run cs s).handlers ≡ with_mark false s.handlers
unfolding run
run-unmarked [] s i = refl
run-unmarked (c ∷ cs) s i =
    run-unmarked cs (configured c s) (configured-IsLogging c s i) ∙ configured-unmarked c s i

handle-append :
    (level : ℕ) (xs ys : List Handler)
    → handle level (xs ++ ys) ≡ handle level xs ++ handle level ys
unfolding handle
handle-append level [] ys = refl
handle-append level (h ∷ xs) ys = ground (arith, handle-append level xs ys)

-- a sink with its least level
abbrev pub passes : ℕ → ℕ → Sink → List Sink
passes level least sink = if leb least level then sink ∷ [] else []

abbrev pub passes_otel : ℕ → Option ℕ → List Sink
passes_otel level none = []
passes_otel level (some least) = passes level least Sink.telemetry

make_handler-handle :
    (level : ℕ) (sink : Sink) (least : ℕ) (s : Logging)
    → handle level (make_handler sink least s).handlers
      ≡ handle level s.handlers ++ passes level least sink
unfolding handle
make_handler-handle level sink least s =
    handle-append level s.handlers
      (record { id = s.made; sink = sink; level = least; marked = true } ∷ [])

add_sinks-handle :
    (level least : ℕ) (otel : Option ℕ) (s : Logging)
    → handle level (add_sinks least otel s).handlers
      ≡ handle level s.handlers
        ++ passes level debug_level (Sink.file s.path)
        ++ passes level least Sink.console
        ++ passes_otel level otel
add_sinks-handle level least none s =
    let s' = make_handler (Sink.file s.path) debug_level s in
    make_handler-handle level Sink.console least s'
    ∙ ap (λ x. x ++ passes level least Sink.console)
        (make_handler-handle level (Sink.file s.path) debug_level s)
    ∙ simp (append_assoc, append-nil) refl
add_sinks-handle level least (some l) s =
    let s' = make_handler (Sink.file s.path) debug_level s in
    make_handler-handle level Sink.telemetry l (make_handler Sink.console least s')
    ∙ ap (λ x. x ++ passes level l Sink.telemetry) (make_handler-handle level Sink.console least s')
    ∙ ap (λ x. (x ++ passes level least Sink.console) ++ passes level l Sink.telemetry)
        (make_handler-handle level (Sink.file s.path) debug_level s)
    ∙ simp (append_assoc) refl

add_sinks-level :
    (least : ℕ) (otel : Option ℕ) (s : Logging)
    → ((add_sinks least otel s).level ≡ s.level)
      × ((add_sinks least otel s).propagate ≡ s.propagate)
add_sinks-level least none s = (refl, refl)
add_sinks-level least (some l) s = (refl, refl)

-- the handlers that `configure` makes
abbrev pub sinks_for : ℕ → Text → ℕ → Option ℕ → List Sink
sinks_for level path least otel =
    Sink.file path ∷ (passes level least Sink.console ++ passes_otel level otel)

configured-handle :
    (before : List Setting) (path : Option Text) (least : ℕ) (otel : Option ℕ) (s : Logging)
    (level : ℕ)
    → IsLogging s
    → handle level (configure path least otel (ok tt) (run before s)).1.handlers
      ≡ handle level (with_mark false s.handlers)
        ++ passes level debug_level (Sink.file (get_or path default_path))
        ++ passes level least Sink.console
        ++ passes_otel level otel
configured-handle before path least otel s level i =
    let c : Setting = record { path = path; stdout_level = least; otel = otel; opening = ok tt } in
    ap (λ (x : Outcome × Logging). handle level x.1.handlers)
      (configure_lem c (run before s) (run-IsLogging before s i))
    ∙ add_sinks-handle level least otel (cleared path (run before s))
    ∙ ap
        (λ (hs : List Handler).
          handle level hs
          ++ passes level debug_level (Sink.file (get_or path default_path))
          ++ passes level least Sink.console
          ++ passes_otel level otel)
        (run-unmarked before s i)

configured-level :
    (path : Option Text) (least : ℕ) (otel : Option ℕ) (s : Logging)
    → IsLogging s
    → let s' = (configure path least otel (ok tt) s).1 in
      (s'.level ≡ debug_level) × (s'.propagate ≡ false)
configured-level path least otel s i =
    let c : Setting = record { path = path; stdout_level = least; otel = otel; opening = ok tt } in
    let eq = configure_lem c s i in
    let (level, propagate) = add_sinks-level least otel (cleared path s) in
    (
      ap (λ (x : Outcome × Logging). x.1.level) eq ∙ level,
      ap (λ (x : Outcome × Logging). x.1.propagate) eq ∙ propagate,
    )

abbrev to_root : Bool → List Sink
to_root propagate = if propagate then Sink.root ∷ [] else []

deliver-parts :
    (level : ℕ) (s : Logging) (sinks : List Sink)
    → s.level ≡ debug_level
    → s.propagate ≡ false
    → handle level s.handlers ≡ sinks
    → deliver level s ≡ (if leb 10 level then sinks else [])
unfolding deliver
deliver-parts level s sinks l p h =
    ap (λ n. if leb n level then handle level s.handlers ++ to_root s.propagate else []) l
    ∙ ap (λ b. if leb 10 level then handle level s.handlers ++ to_root b else []) p
    ∙ ap (λ ys. if leb 10 level then ys else []) (append-nil (handle level s.handlers) ∙ h)

-- From a logger whose handlers are different objects, and whatever its level and propagation were, after
-- any calls of `configure`, whether or not the files of those could be opened, and one more call
-- whose file can be opened: a record of the debug level or above goes to the logger's other handlers
-- as their levels say, once to the log file of the last call, once to standard output and to
-- OpenTelemetry, where there is one, if its level reaches theirs, and not to the root logger; a record
-- below the debug level goes nowhere.
pub configure_delivers :
    (before : List Setting) (path : Option Text) (least : ℕ) (otel : Option ℕ) (s : Logging)
    (level : ℕ)
    → IsLogging s
    → deliver level (configure path least otel (ok tt) (run before s)).1 ≡ (
        if leb 10 level
        then handle level (with_mark false s.handlers)
          ++ sinks_for level (get_or path default_path) least otel
        else [])
configure_delivers before path least otel s level i =
    let (set, quiet) = configured-level path least otel (run before s) (run-IsLogging before s i) in
    deliver-parts level (configure path least otel (ok tt) (run before s)).1 _ set quiet
      (configured-handle before path least otel s level i)
    ∙ (elim (Bool-cases (leb 10 level)) [
      | inl up ↦ rw up (simp (append_assoc) refl)
      | inr down ↦ rw down refl
    ])

-- If the log file cannot be opened, on a logger whose handlers are different objects, the exception
-- comes out: the handlers of the calls before are removed and closed, none takes their place, and
-- only the logger's other handlers stay.
pub configure_fails :
    (path : Option Text) (least : ℕ) (otel : Option ℕ) (e : Exception) (s : Logging)
    → IsLogging s
    → let (r, s') = configure path least otel (err e) s in
      (r ≡ err e)
      × (s'.handlers ≡ with_mark false s.handlers)
      × (s'.closed ≡ s.closed ++ with_mark true s.handlers)
configure_fails path least otel e s i =
    let c : Setting = record { path = path; stdout_level = least; otel = otel; opening = err e } in
    let eq = configure_lem c s i in
    (
      ap (λ (x : Outcome × Logging). x.0) eq,
      ap (λ (x : Outcome × Logging). x.1.handlers) eq,
      ap (λ (x : Outcome × Logging). x.1.closed) eq,
    )
