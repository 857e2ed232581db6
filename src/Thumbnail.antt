-- ===== src/Thumbnail.antt =====
-- browser-trace/thumbnail.py: screenshots of the frontmost tab, with a short cache. A capture is cut
-- where it waits: for the lock, and for the screenshot. Times are milliseconds.
pub mod Screenshot
pub mod Runs
pub mod Honest
pub mod Queue
mod Tests
use chrome_live.Base.{
  ℕ, ◌+◌, String, Bool, true, false, ◌&&◌, Option, none, some, List, [], ◌∷◌, ◌++◌, ltb, ◌==◌,
  nat_key, string_key, if◌then◌else◌,
}
use chrome_live.Base.Exec.{Exception, cdp_error, thumbnail_error, Result, ok, err}

-- `CACHE_SECONDS`, in milliseconds
abbrev pub cache_time : ℕ
cache_time = 5000

pub record Cached (J : Type 0) : Type 0 where
  pub session_id : String
  pub expires_at : ℕ
  pub jpeg : J

-- A capture that has its source and its session: `source` numbers the `attach` that made it.
pub record Capture : Type 0 where
  pub id : ℕ
  pub source : ℕ
  pub session_id : String

-- How a capture ended, with the time, and the source that was attached then.
pub record Return (J : Type 0) : Type 0 where
  pub id : ℕ
  pub session_id : Option String
  pub source : Option ℕ
  pub attached : Option ℕ
  pub at : ℕ
  pub result : Result J

-- A screenshot that Chrome has delivered.
pub record Shot (J : Type 0) : Type 0 where
  pub source : ℕ
  pub session_id : String
  pub jpeg : J
  pub at : ℕ

-- The object, the captures in it, and the history of returns and screenshots. The capture in
-- `shooting` holds the lock; those in `waiting` stand before it, in order.
pub record Thumbnailer (J : Type 0) : Type 0 where
  pub source : Option ℕ
  pub sources : ℕ
  pub cache : Option (Cached J)
  pub waiting : List Capture
  pub shooting : Option Capture
  pub returned : List (Return J)
  pub shots : List (Shot J)

abbrev pub created : (J : Type 0) → Thumbnailer J
created J = record {
  source = none;
  sources = 0;
  cache = none;
  waiting = [];
  shooting = none;
  returned = [];
  shots = [];
}

-- the last key: `next(reversed(sessions))`
unfoldable pub frontmost_session_id : List String → Option String
frontmost_session_id [] = none
frontmost_session_id (sid ∷ []) = some sid
frontmost_session_id (sid ∷ (next ∷ rest)) = frontmost_session_id (next ∷ rest)

-- `self._source is source`
abbrev pub is_attached : ℕ → Option ℕ → Bool
is_attached n none = false
is_attached n (some k) = k == n

-- a `CdpError` becomes a `ThumbnailError`
abbrev pub as_thumbnail_error : Exception → Exception
as_thumbnail_error cdp_error = thumbnail_error
as_thumbnail_error e = e

module _ {J : Type 0} where
  unfoldable pub attach : Thumbnailer J → Thumbnailer J
  attach t = record t { source = some (t.sources + 1); sources = t.sources + 1; cache = none }

  unfoldable pub detach : Thumbnailer J → Thumbnailer J
  detach t = record t { source = none; cache = none }

  -- the end of a capture that has a session
  abbrev pub give : Capture → ℕ → Result J → Thumbnailer J → Thumbnailer J
  give c now r t = record t {
    returned =
        t.returned
        ++ record {
          id = c.id;
          session_id = some c.session_id;
          source = some c.source;
          attached = t.source;
          at = now;
          result = r;
        }
          ∷ [];
  }

  -- the `ThumbnailError` of a capture that gets no session
  abbrev pub refuse : ℕ → ℕ → Thumbnailer J → Thumbnailer J
  refuse id now t = record t {
    returned =
        t.returned
        ++ record {
          id = id;
          session_id = none;
          source = t.source;
          attached = t.source;
          at = now;
          result = err thumbnail_error;
        }
          ∷ [];
  }

  unfoldable pub ask : ℕ → ℕ → Option ℕ → Option String → Thumbnailer J → Thumbnailer J
  ask id now none sid t = refuse id now t
  ask id now (some source) none t = refuse id now t
  ask id now (some source) (some sid) t = record t {
    waiting = t.waiting ++ record { id = id; source = source; session_id = sid } ∷ [];
  }

  -- `capture` up to the lock, with the keys of `sessions`
  unfoldable pub begin_capture : ℕ → ℕ → List String → Thumbnailer J → Thumbnailer J
  unfolding ask frontmost_session_id
  begin_capture id now sessions t = ask id now t.source (frontmost_session_id sessions) t

  abbrev pub is_fresh : String → ℕ → Cached J → Bool
  is_fresh sid now cached = cached.session_id == sid && ltb now cached.expires_at

  -- the capture that has got the lock looks at the cache
  unfoldable pub look : ℕ → Capture → Option (Cached J) → Thumbnailer J → Thumbnailer J
  look now c none t = record t { shooting = some c }
  look now c (some cached) t =
      if is_fresh c.session_id now cached
      then give c now (ok cached.jpeg) t
      else record t { shooting = some c }

  unfoldable pub admit : ℕ → Option Capture → List Capture → Thumbnailer J → Thumbnailer J
  unfolding look
  admit now (some holder) waiting t = t
  admit now none [] t = t
  admit now none (c ∷ rest) t = look now c t.cache (record t { waiting = rest })

  -- `async with self._lock`: the first capture that waits enters when the lock is free.
  unfoldable pub enter_lock : ℕ → Thumbnailer J → Thumbnailer J
  unfolding admit
  enter_lock now t = admit now t.shooting t.waiting t

  abbrev pub remember : Capture → ℕ → J → Thumbnailer J → Thumbnailer J
  remember c now jpeg t = record t {
    cache =
        if is_attached c.source t.source
        then some (record { session_id = c.session_id; expires_at = now + cache_time; jpeg = jpeg })
        else t.cache;
    shots =
        t.shots
        ++ record { source = c.source; session_id = c.session_id; jpeg = jpeg; at = now } ∷ [];
  }

  unfoldable pub conclude : ℕ → Result J → Option Capture → Thumbnailer J → Thumbnailer J
  conclude now r none t = t
  conclude now (ok jpeg) (some c) t =
      give c now (ok jpeg) (remember c now jpeg (record t { shooting = none }))
  conclude now (err e) (some c) t =
      give c now (err (as_thumbnail_error e)) (record t { shooting = none })

  -- The screenshot of the capture that holds the lock is there, or has raised.
  unfoldable pub finish_shot : ℕ → Result J → Thumbnailer J → Thumbnailer J
  unfolding conclude
  finish_shot now r t = conclude now r t.shooting t
