-- ===== src/Thumbnail/Honest.antt =====
-- What a thumbnail shows, whatever the order of events: a screenshot of the session that was in front
-- when it was asked for. It is the one that the capture has just taken itself, over the connection it
-- began with (which may have been left since), or one from the cache, which is not expired and is of
-- the connection that is attached.
use chrome_live.Base.{
  ℕ, ◌+◌, ◌<◌, ◌≡◌, refl, String, true, ◌⊎◌, inl, inr, Option, none, some, List, [], ◌∷◌, ◌++◌,
  arith, string_key, nat_key, Bool-cases, All, All-append, All-map, Memᴰ-append_left, Memᴰ-concat,
  some-inj, sym, ap,
}
use mathlib.Core.List.{Memᴰ}
use chrome_live.Base.Exec.{Result, ok, err}
use chrome_live.Thumbnail.{
  Cached, Capture, Return, Shot, Thumbnailer, created, cache_time, attach, detach, give, ask,
  begin_capture, is_fresh, look, admit, enter_lock, is_attached, remember, conclude, finish_shot,
  frontmost_session_id,
}
use chrome_live.Thumbnail.Runs.{Op, attached, detached, asked, entered, shot, step, run}

is_attached-eq : (n : ℕ) (source : Option ℕ) → is_attached n source ≡ true → source ≡ some n
is_attached-eq n none h = cc
is_attached-eq n (some k) h = ground (arith, (nat_key.same_iff k n).0 h)

module _ {J : Type 0} where
  -- A JPEG that was returned is a screenshot of the session that was asked for: the one that the
  -- capture has taken itself just now, from its own connection, or one of the connection that is
  -- attached, younger than the cache's time.
  pub record IsServed (shots : List (Shot J)) (r : Return J) (jpeg : J) : Type 0 where
    pub taken : Shot J
    pub listed : Memᴰ taken shots
    pub same : taken.jpeg ≡ jpeg
    pub of_session : r.session_id ≡ some taken.session_id
    pub recent :
        ((taken.at ≡ r.at) × (r.source ≡ some taken.source))
        ⊎ ((r.at < taken.at + cache_time) × (r.attached ≡ some taken.source))

  abbrev pub Served : List (Shot J) → Return J → Type 0
  Served shots r = (jpeg : J) → r.result ≡ ok jpeg → IsServed shots r jpeg

  -- The cache is a screenshot of the connection that is attached.
  pub record IsCached (t : Thumbnailer J) (c : Cached J) : Type 0 where
    pub taken : Shot J
    pub listed : Memᴰ taken t.shots
    pub same : taken.jpeg ≡ c.jpeg
    pub of_session : taken.session_id ≡ c.session_id
    pub current : t.source ≡ some taken.source
    pub expires : c.expires_at ≡ taken.at + cache_time

  pub record IsHonest (t : Thumbnailer J) : Type 0 where
    pub cached : (c : Cached J) → t.cache ≡ some c → IsCached t c
    pub served : All (Served t.shots) t.returned

  more_shots :
      (s : Shot J) (shots : List (Shot J)) (r : Return J)
      → Served shots r
      → Served (shots ++ s ∷ []) r
  more_shots s shots r h jpeg e =
      let old = h jpeg e in
      record {
        taken = old.taken;
        listed = Memᴰ-append_left old.taken shots (s ∷ []) old.listed;
        same = old.same;
        of_session = old.of_session;
        recent = old.recent;
      }

  -- a change of neither the cache, nor the source, nor what was taken
  give-IsHonest :
      (t : Thumbnailer J) (r : Return J)
      → Served t.shots r
      → IsHonest t
      → IsHonest (record t { returned = t.returned ++ r ∷ [] })
  give-IsHonest t r served h = record {
    cached = λ c e. record {
      taken = (h.cached c e).taken;
      listed = (h.cached c e).listed;
      same = (h.cached c e).same;
      of_session = (h.cached c e).of_session;
      current = (h.cached c e).current;
      expires = (h.cached c e).expires;
    };
    served = All-append (Served t.shots) t.returned (r ∷ []) h.served (served, tt);
  }

  waiting-IsHonest :
      (t : Thumbnailer J) (waiting : List Capture) (shooting : Option Capture)
      → IsHonest t
      → IsHonest (record t { waiting = waiting; shooting = shooting })
  waiting-IsHonest t waiting shooting h = record {
    cached = λ c e. record {
      taken = (h.cached c e).taken;
      listed = (h.cached c e).listed;
      same = (h.cached c e).same;
      of_session = (h.cached c e).of_session;
      current = (h.cached c e).current;
      expires = (h.cached c e).expires;
    };
    served = h.served;
  }

  ask-IsHonest :
      (id now : ℕ) (source : Option ℕ) (sid : Option String) (t : Thumbnailer J)
      → IsHonest t
      → IsHonest (ask id now source sid t)
  unfolding ask
  ask-IsHonest id now none sid t h = give-IsHonest t _ (λ jpeg e. cc) h
  ask-IsHonest id now (some source) none t h = give-IsHonest t _ (λ jpeg e. cc) h
  ask-IsHonest id now (some source) (some sid) t h = waiting-IsHonest t _ t.shooting h

  cache_hit :
      (now : ℕ) (c : Capture) (cached : Cached J) (t : Thumbnailer J)
      → IsCached t cached
      → is_fresh c.session_id now cached ≡ true
      → IsHonest t
      → IsHonest (give c now (ok cached.jpeg) t)
  cache_hit now c cached t there fresh h =
      give-IsHonest t _
        (λ jpeg e. record {
          taken = there.taken;
          listed = there.listed;
          same = ground (arith, there.same, e);
          of_session = ground (
            arith,
            (string_key.same_iff cached.session_id c.session_id).0,
            there.of_session,
            fresh,
          );
          recent = inr (ground (arith, there.expires, fresh), there.current);
        })
        h

  remember-IsHonest :
      (now : ℕ) (c : Capture) (jpeg : J) (t : Thumbnailer J)
      → IsHonest t
      → IsHonest (remember c now jpeg t)
  remember-IsHonest now c jpeg t h =
      let new : Shot J = record {
        source = c.source;
        session_id = c.session_id;
        jpeg = jpeg;
        at = now;
      } in
      elim (Bool-cases (is_attached c.source t.source)) [
        | inl current ↦ rw current (record {
          cached = λ c' e. record {
            taken = new;
            listed = Memᴰ-concat new t.shots;
            same = ap (λ (x : Cached J). x.jpeg) (some-inj e);
            of_session = ap (λ (x : Cached J). x.session_id) (some-inj e);
            current = is_attached-eq c.source t.source current;
            expires = sym (ap (λ (x : Cached J). x.expires_at) (some-inj e));
          };
          served =
              All-map (Served t.shots) (Served (t.shots ++ new ∷ [])) t.returned
                (more_shots new t.shots) h.served;
        })
        | inr old ↦ rw old (record {
          cached = λ c' e. record {
            taken = (h.cached c' e).taken;
            listed =
                Memᴰ-append_left (h.cached c' e).taken t.shots (new ∷ []) (h.cached c' e).listed;
            same = (h.cached c' e).same;
            of_session = (h.cached c' e).of_session;
            current = (h.cached c' e).current;
            expires = (h.cached c' e).expires;
          };
          served =
              All-map (Served t.shots) (Served (t.shots ++ new ∷ [])) t.returned
                (more_shots new t.shots) h.served;
        })
      ]

  look-IsHonest :
      (now : ℕ) (c : Capture) (cache : Option (Cached J)) (t : Thumbnailer J)
      → cache ≡ t.cache
      → IsHonest t
      → IsHonest (look now c cache t)
  unfolding look
  look-IsHonest now c none t e h = waiting-IsHonest t t.waiting (some c) h
  look-IsHonest now c (some cached) t e h = elim (Bool-cases (is_fresh c.session_id now cached)) [
    | inl fresh ↦ rw fresh (cache_hit now c cached t (h.cached cached (sym e)) fresh h)
    | inr stale ↦ rw stale (waiting-IsHonest t t.waiting (some c) h)
  ]

  admit-IsHonest :
      (now : ℕ) (shooting : Option Capture) (waiting : List Capture) (t : Thumbnailer J)
      → IsHonest t
      → IsHonest (admit now shooting waiting t)
  unfolding admit
  admit-IsHonest now (some holder) waiting t h = h
  admit-IsHonest now none [] t h = h
  admit-IsHonest now none (c ∷ rest) t h =
      look-IsHonest now c t.cache (record t { waiting = rest }) refl
        (waiting-IsHonest t rest t.shooting h)

  conclude-IsHonest :
      (now : ℕ) (r : Result J) (c : Option Capture) (t : Thumbnailer J)
      → IsHonest t
      → IsHonest (conclude now r c t)
  unfolding conclude
  conclude-IsHonest now r none t h = h
  conclude-IsHonest now (ok jpeg) (some c) t h =
      let free = record t { shooting = none } in
      give-IsHonest (remember c now jpeg free) _
        (λ jpeg' e. record {
          taken = record { source = c.source; session_id = c.session_id; jpeg = jpeg; at = now };
          listed = Memᴰ-concat _ t.shots;
          same = ground (arith, e);
          of_session = refl;
          recent = inl (refl, refl);
        })
        (remember-IsHonest now c jpeg free (waiting-IsHonest t t.waiting none h))
  conclude-IsHonest now (err e) (some c) t h =
      give-IsHonest (record t { shooting = none }) _ (λ jpeg e'. cc)
        (waiting-IsHonest t t.waiting none h)

  step-IsHonest : (op : Op J) (t : Thumbnailer J) → IsHonest t → IsHonest (step op t)
  unfolding step attach detach begin_capture enter_lock finish_shot
  step-IsHonest attached t h = record { cached = λ c e. absurd (cc); served = h.served }
  step-IsHonest detached t h = record { cached = λ c e. absurd (cc); served = h.served }
  step-IsHonest (asked id now sessions) t h =
      ask-IsHonest id now t.source (frontmost_session_id sessions) t h
  step-IsHonest (entered now) t h = admit-IsHonest now t.shooting t.waiting t h
  step-IsHonest (shot now r) t h = conclude-IsHonest now r t.shooting t h

  -- From a state in which this holds, whatever connects, disconnects, asks and answers, in any
  -- order: every JPEG that a capture has returned is a screenshot of the session that the capture
  -- began with. Either the capture took it itself, at the time of its return and from the
  -- connection that it began with, or it is from the connection that was attached at the return and
  -- younger than the cache's time. The cache, where there is one, is a screenshot of the connection
  -- that is attached.
  pub run-IsHonest : (ops : List (Op J)) (t : Thumbnailer J) → IsHonest t → IsHonest (run ops t)
  unfolding run
  run-IsHonest [] t h = h
  run-IsHonest (op ∷ ops) t h = run-IsHonest ops (step op t) (step-IsHonest op t h)

  pub created-IsHonest : IsHonest (created J)
  created-IsHonest = record { cached = λ c e. absurd (cc); served = tt }
