-- ===== src/Monitor/FrameOrder.antt =====
-- The main frame of a tab and the documents of the tab may arrive in either order.
use chrome_live.Base.{
  ℕ, String, ◌≡◌, refl, false, Option, none, some, List, [], ◌∷◌, ◌++◌, arith, ◌==◌, string_key,
  Bool-cases, inl, inr, if◌then◌else◌, ==-refl, ◌∙◌, ap, sym,
}
use chrome_live.Dict.{Dict, lookup, modify}
use chrome_live.Dict.Laws.{lookup-modify}
use chrome_live.Traffic.Hosts.{non_empty}
use chrome_live.Monitor.State.{Session, Pending, Monitor}
use chrome_live.Monitor.Emit.{emit_navigation, emit_cdp_event}
use chrome_live.Monitor.Navigation.{
  flush_each, flush_with, flush_pending, set_main_frame, learned, learn_frame, route,
  document_response, add_pending, without_pending,
}
use chrome_live.Monitor.Arms.{document_arrived}

-- a document's response for a session that may be known, as the event loop takes it
unfoldable pub arrive : String → Pending → Monitor → Monitor
unfolding document_arrived
arrive key p m = document_arrived key p (lookup key m.sessions) m

-- a navigation, where the document is of the main frame
abbrev pub navigated : String → Session → String → Pending → Monitor → Monitor
navigated key session id p m =
    if p.frame_id == id then emit_navigation key session p.url p.status_code m else m

modify-modify :
    (key : String) (f g : Session → Session) (d : Dict String Session)
    → modify key f (modify key g d) ≡ modify key (λ s. f (g s)) d
unfolding modify
modify-modify key f g [] = refl
modify-modify key f g ((k, s) ∷ d) = elim (Bool-cases (k == key)) [
  | inl here ↦ rw (here, here) refl
  | inr there ↦ rw (there, there) (ap (◌∷◌ (k, s)) (modify-modify key f g d))
]

flush_each-append :
    (key id : String) (session : Session) (ps : List Pending) (p : Pending) (m : Monitor)
    → flush_each key session id (ps ++ p ∷ []) m
      ≡ navigated key session id p (flush_each key session id ps m)
unfolding flush_each
flush_each-append key id session [] p m = refl
flush_each-append key id session (q ∷ ps) p m =
    flush_each-append key id session ps p (navigated key session id q m)

-- The flush reads what a session is called, not what it has.
emit_same :
    (key : String) (s t : Session) (url : String) (status : ℕ) (m : Monitor)
    → s.target_id ≡ t.target_id
    → s.session_id ≡ t.session_id
    → emit_navigation key s url status m ≡ emit_navigation key t url status m
unfolding emit_navigation emit_cdp_event
emit_same key s t url status m target name = rw (target, name) refl

flush_each-same :
    (key id : String) (s t : Session) (ps : List Pending) (m : Monitor)
    → s.target_id ≡ t.target_id
    → s.session_id ≡ t.session_id
    → flush_each key s id ps m ≡ flush_each key t id ps m
unfolding flush_each
flush_each-same key id s t [] m target name = refl
flush_each-same key id s t (p ∷ ps) m target name =
    ap (λ (e : Monitor). flush_each key s id ps (if p.frame_id == id then e else m))
      (emit_same key s t p.url p.status_code m target name)
    ∙ flush_each-same key id s t ps (navigated key t id p m) target name

-- A session whose main frame is known, by what the event loop reads of it.
record Knows (key id : String) (s : Session) (m : Monitor) : Type 0 where
  session : Session
  found : lookup key m.sessions ≡ some session
  main : session.main_frame_id ≡ some id
  target : session.target_id ≡ s.target_id
  name : session.session_id ≡ s.session_id

emit-Knows :
    (key id url : String) (status : ℕ) (s t : Session) (m : Monitor)
    → Knows key id s m
    → Knows key id s (emit_navigation key t url status m)
unfolding emit_navigation emit_cdp_event
emit-Knows key id url status s t m h = record {
  session = record (h.session) { last_url = url };
  found = ground (
    arith,
    h.found,
    ==-refl key,
    lookup-modify key key (λ s. record s { last_url = url }) m.sessions,
  );
  main = h.main;
  target = h.target;
  name = h.name;
}

flush_each-Knows :
    (key id : String) (s t : Session) (ps : List Pending) (m : Monitor)
    → Knows key id s m
    → Knows key id s (flush_each key t id ps m)
unfolding flush_each
flush_each-Knows key id s t [] m h = h
flush_each-Knows key id s t (p ∷ ps) m h = elim (Bool-cases (p.frame_id == id)) [
  | inl matches ↦ rw matches (
      flush_each-Knows key id s t ps (emit_navigation key t p.url p.status_code m)
        (emit-Knows key id p.url p.status_code s t m h))
  | inr differs ↦ rw differs (flush_each-Knows key id s t ps m h)
]

-- A document for a session whose main frame is known is a navigation or nothing.
arrive-Knows :
    (key id : String) (s : Session) (p : Pending) (m : Monitor)
    → (id == "") ≡ false
    → Knows key id s m
    → arrive key p m ≡ navigated key s id p m
unfolding arrive document_arrived document_response route emit_navigation
arrive-Knows key id s p m named h =
    rw (h.found, h.main, named)
      (ap (λ (e : Monitor). if p.frame_id == id then e else m)
        (emit_same key h.session s p.url p.status_code m h.target h.name))

abbrev pub with_main : String → Session → Session
with_main id s = record s { main_frame_id = some id }

-- the table when the main frame is known and the pending responses are taken
abbrev pub settled : String → String → Monitor → Monitor
settled key id m = record m {
  sessions = modify key without_pending (modify key (with_main id) m.sessions);
}

abbrev pub buffered : String → Pending → Monitor → Monitor
buffered key p m = record m { sessions = modify key (add_pending p) m.sessions }

settled-buffered :
    (key id : String) (p : Pending) (m : Monitor)
    → settled key id (buffered key p m) ≡ settled key id m
settled-buffered key id p m =
    ap (λ (d : Dict String Session). record m { sessions = d })
      (ap (modify key without_pending) (modify-modify key (with_main id) (add_pending p) m.sessions)
        ∙ modify-modify key without_pending (λ s. with_main id (add_pending p s)) m.sessions
        ∙ sym (modify-modify key without_pending (with_main id) m.sessions))

module _ (key id : String) (named : (id == "") ≡ false) where
  arrive-new :
      (s : Session) (p : Pending) (m : Monitor)
      → lookup key m.sessions ≡ some s
      → s.main_frame_id ≡ none
      → arrive key p m ≡ buffered key p m
  unfolding arrive document_arrived document_response route
  arrive-new s p m found new = rw (found, new) refl

  learn_frame-found :
      (s : Session) (m : Monitor)
      → lookup key m.sessions ≡ some s
      → learn_frame key (some id) m
        ≡ flush_each key (with_main id s) id s.pending (settled key id m)
  unfolding learn_frame learned set_main_frame flush_pending flush_with
  learn_frame-found s m found =
      let given : non_empty (some id) ≡ some id = rw named refl in
      ap (λ (o : Option String). learned key o (lookup key m.sessions) m) given
      ∙ ap (λ (o : Option Session). learned key (some id) o m) found
      ∙ ap
          (λ (o : Option String).
            flush_with key (with_main id s) o
              (record m { sessions = modify key (with_main id) m.sessions }))
          given

  learn_frame-Knows :
      (s : Session) (m : Monitor)
      → lookup key m.sessions ≡ some s
      → Knows key id s (flush_each key (with_main id s) id s.pending (settled key id m))
  learn_frame-Knows s m found =
      flush_each-Knows key id s (with_main id s) s.pending (settled key id m) (record {
        session = without_pending (with_main id s);
        found = ground (
          arith,
          found,
          ==-refl key,
          lookup-modify key key (with_main id) m.sessions,
          lookup-modify key key without_pending (modify key (with_main id) m.sessions),
        );
        main = refl;
        target = refl;
        name = refl;
      })

  -- One response, before or after.
  learn-arrive :
      (s : Session) (p : Pending) (m : Monitor)
      → lookup key m.sessions ≡ some s
      → s.main_frame_id ≡ none
      → learn_frame key (some id) (arrive key p m) ≡ arrive key p (learn_frame key (some id) m)
  learn-arrive s p m found new =
      let kept : lookup key (buffered key p m).sessions ≡ some (add_pending p s) =
        ground (arith, found, ==-refl key, lookup-modify key key (add_pending p) m.sessions) in
      let start = settled key id m in
      let done = flush_each key (with_main id s) id s.pending start in
      ap (learn_frame key (some id)) (arrive-new s p m found new)
      ∙ learn_frame-found (add_pending p s) (buffered key p m) kept
      ∙ ap (flush_each key (with_main id (add_pending p s)) id (s.pending ++ p ∷ []))
          (settled-buffered key id p m)
      ∙ flush_each-same key id (with_main id (add_pending p s)) (with_main id s)
          (s.pending ++ p ∷ []) start refl refl
      ∙ flush_each-append key id (with_main id s) s.pending p start
      ∙ ap (λ (e : Monitor). if p.frame_id == id then e else done)
          (emit_same key (with_main id s) s p.url p.status_code done refl refl)
      ∙ sym (arrive-Knows key id s p done named (learn_frame-Knows s m found))
      ∙ ap (arrive key p) (sym (learn_frame-found s m found))

-- the responses of several documents
unfoldable pub arrive_all : String → List Pending → Monitor → Monitor
unfolding arrive
arrive_all key [] m = m
arrive_all key (p ∷ ps) m = arrive_all key ps (arrive key p m)

-- For a known session whose main frame is not known, and a frame id that is not empty, it makes no
-- difference to the state, the log and its order included, whether the main frame is learned after
-- the responses of any documents or before them.
pub learn_frame_any_time :
    (key id : String) (ps : List Pending) (s : Session) (m : Monitor)
    → (id == "") ≡ false
    → lookup key m.sessions ≡ some s
    → s.main_frame_id ≡ none
    → learn_frame key (some id) (arrive_all key ps m)
      ≡ arrive_all key ps (learn_frame key (some id) m)
unfolding arrive_all
learn_frame_any_time key id [] s m named found new = refl
learn_frame_any_time key id (p ∷ ps) s m named found new =
    let kept : lookup key (arrive key p m).sessions ≡ some (add_pending p s) =
      ap (λ (e : Monitor). lookup key e.sessions) (arrive-new key id named s p m found new)
      ∙ ground (arith, found, ==-refl key, lookup-modify key key (add_pending p) m.sessions) in
    learn_frame_any_time key id ps (add_pending p s) (arrive key p m) named kept new
    ∙ ap (arrive_all key ps) (learn-arrive key id named s p m found new)
