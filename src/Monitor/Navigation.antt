-- ===== src/Monitor/Navigation.antt =====
-- The main frame of a session and the responses that wait for it, in browser-trace/main.py.
use chrome_live.Base.{
  String, Option, none, some, List, [], ◌∷◌, ◌++◌, ◌==◌, string_key, if◌then◌else◌,
}
use chrome_live.Dict.{lookup, modify}
use chrome_live.Traffic.Hosts.{non_empty}
use chrome_live.Monitor.State.{Pending, Session, Monitor}
use chrome_live.Monitor.Emit.{emit_navigation}

-- the loop of `flush_pending`
unfoldable pub flush_each : String → Session → String → List Pending → Monitor → Monitor
flush_each key session main_frame_id [] m = m
flush_each key session main_frame_id (p ∷ rest) m =
    flush_each key session main_frame_id rest
      (if p.frame_id == main_frame_id then emit_navigation key session p.url p.status_code m else m)

abbrev pub without_pending : Session → Session
without_pending s = record s { pending = [] }

unfoldable pub flush_with : String → Session → Option String → Monitor → Monitor
unfolding flush_each
flush_with key session none m = m
flush_with key session (some main_frame_id) m =
    flush_each key session main_frame_id session.pending
      (record m { sessions = modify key without_pending m.sessions })

-- `flush_pending`, on the session at a key
unfoldable pub flush_pending : String → Session → Monitor → Monitor
unfolding flush_with
flush_pending key session m = flush_with key session (non_empty session.main_frame_id) m

-- `sessions[key]["main_frame_id"] = frame_id`, then `flush_pending`
unfoldable pub set_main_frame : String → Session → Option String → Monitor → Monitor
unfolding flush_pending
set_main_frame key session frame_id m =
    flush_pending key (record session { main_frame_id = frame_id })
      (record m { sessions = modify key (λ s. record s { main_frame_id = frame_id }) m.sessions })

unfoldable pub learned : String → Option String → Option Session → Monitor → Monitor
unfolding set_main_frame
learned key none session m = m
learned key (some id) none m = m
learned key (some id) (some session) m = set_main_frame key session (some id) m

-- The `Page.getFrameTree` arm of `handle_response`, for a session.
unfoldable pub learn_frame : String → Option String → Monitor → Monitor
unfolding learned
learn_frame key frame_id m = learned key (non_empty frame_id) (lookup key m.sessions) m

abbrev pub add_pending : Pending → Session → Session
add_pending p s = record s { pending = s.pending ++ p ∷ [] }

unfoldable pub route : String → Session → Pending → Option String → Monitor → Monitor
route key session p none m = record m { sessions = modify key (add_pending p) m.sessions }
route key session p (some id) m =
    if p.frame_id == id then emit_navigation key session p.url p.status_code m else m

-- The last part of the `Network.responseReceived` arm, for a document of a known session.
unfoldable pub document_response : String → Session → Pending → Monitor → Monitor
unfolding route
document_response key session p m = route key session p (non_empty session.main_frame_id) m
