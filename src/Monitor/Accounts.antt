-- ===== src/Monitor/Accounts.antt =====
-- Every byte is reported: the sum of the deltas of the `tab_traffic` events, with what open tabs have
-- not reported yet, is the process total.
use chrome_live.Base.{
  ℕ, ◌+◌, String, true, false, ◌≡◌, none, some, List, [], ◌∷◌, arith, sum_by, sum_by-append,
  Bool-cases, inl, inr, string_key, nat_beq, nat_beq_iff,
}
use chrome_live.Base.Exec.{Exec}
use chrome_live.Base.Exec.Keeps.{Keeps}
use chrome_live.Dict.{Dict, keys, lookup}
use chrome_live.Dict.Keys.{IsDict}
use chrome_live.Dict.Entries.{AllFound, AllFound-refl, AllFound-modify}
use chrome_live.Traffic.State.{TabTraffic, Traffic}
use chrome_live.Traffic.Tabs.{mark_reported, close_tab, close_each, close_all, present}
use chrome_live.Traffic.Reporting.{HasReported, unreported}
use chrome_live.Traffic.Reporting.Closing.{rebook, close_tab-settles, close_each-settles}
use chrome_live.Traffic.Reporting.Handlers.{mark_reported-HasReported}
use chrome_live.Monitor.State.{LogEvent, Monitor}
use chrome_live.Monitor.Emit.{emit_cdp_event, event_level}
use chrome_live.Monitor.Reports.{
  traffic_event, emit_tab_traffic, report_tab, report_each, report_traffic, flush_closed_tab,
  flush_closed_tabs, flush_all,
}
use chrome_live.Monitor.Arms.{on_traffic}

-- `bytes_delta` of an event, where it has one
abbrev pub delta_of : LogEvent → ℕ
delta_of e = elim e.extra [ none ↦ 0 | some report ↦ report.bytes_delta ]

-- The log and `k` bytes that are to be logged account for what was received.
pub record Owes (k : ℕ) (m : Monitor) : Type 0 where
  pub books : HasReported (sum_by delta_of m.log + k) m.traffic

-- Nothing is to be logged.
abbrev pub IsAccounted : Monitor → Type 0
IsAccounted = Owes 0

pub emit-Owes :
    (k : ℕ) (e : LogEvent) (m : Monitor) → Owes (k + delta_of e) m → Owes k (emit_cdp_event e m)
unfolding emit_cdp_event
emit-Owes k e m h = record {
  books =
      rebook (omega (arith, sum_by-append delta_of m.log (record e { level = event_level e } ∷ [])))
        h.books;
}

-- a change of neither the log nor the accounts
pub apart-Owes :
    (k : ℕ) (m m' : Monitor) → m'.log ≡ m.log → m'.traffic ≡ m.traffic → Owes k m → Owes k m'
apart-Owes k m m' log traffic h = record { books = rw log (rw traffic h.books) }

pub on_traffic-Owes :
    {A : Type 0} (k : ℕ) (f : Exec Traffic A)
    → ((n : ℕ) → Keeps (HasReported n) f)
    → Keeps (Owes k) (on_traffic f)
unfolding on_traffic
on_traffic-Owes k f h = record {
  after = λ m owes. record { books = (h (sum_by delta_of m.log + k)).after m.traffic owes.books };
}

report_tab-Owes :
    (key : String) (tab : TabTraffic) (m : Monitor)
    → lookup key m.traffic.tab_by_session ≡ some tab
    → IsAccounted m
    → IsAccounted (report_tab key tab m)
unfolding report_tab emit_tab_traffic
report_tab-Owes key tab m found h =
    elim (Bool-cases (nat_beq tab.bytes_received tab.reported_bytes)) [
      | inl nothing_new ↦ rw nothing_new h
      | inr new ↦ rw new (
          emit-Owes 0 (traffic_event tab false) _ (record {
            books =
                rebook (omega arith) (mark_reported-HasReported _ key tab m.traffic found h.books);
          }))
    ]

report_tab-AllFound :
    (key : String) (tab : TabTraffic) (d : Dict String TabTraffic) (m : Monitor)
    → lookup key d ≡ none
    → AllFound d m.traffic.tab_by_session
    → AllFound d (report_tab key tab m).traffic.tab_by_session
unfolding report_tab emit_tab_traffic emit_cdp_event mark_reported
report_tab-AllFound key tab d m new found = ground (
  arith,
  AllFound-modify key (λ t. record t { reported_bytes = t.bytes_received }) d
      m.traffic.tab_by_session new found,
)

report_each-Owes :
    (d : Dict String TabTraffic) (m : Monitor)
    → IsDict d
    → AllFound d m.traffic.tab_by_session
    → IsAccounted m
    → IsAccounted (report_each d m)
unfolding report_each
report_each-Owes [] m h found owes = owes
report_each-Owes ((key, tab) ∷ d) m h found owes =
    report_each-Owes d (report_tab key tab m) h.1 (report_tab-AllFound key tab d m h.0 found.1)
      (report_tab-Owes key tab m found.0 owes)

pub report_traffic-Owes : (m : Monitor) → IsAccounted m → IsAccounted (report_traffic m)
unfolding report_traffic
report_traffic-Owes m h =
    let tabs = h.books.tabs in
    report_each-Owes m.traffic.tab_by_session m tabs (AllFound-refl m.traffic.tab_by_session tabs) h

flush_closed_tab-Owes :
    (k : ℕ) (tab : TabTraffic) (m : Monitor)
    → Owes (k + unreported tab) m
    → Owes k (flush_closed_tab tab m)
unfolding flush_closed_tab emit_tab_traffic
flush_closed_tab-Owes k tab m h = elim (Bool-cases (nat_beq tab.bytes_received 0)) [
  | inl nothing ↦ rw nothing (record {
    books = rebook (omega (arith, (nat_beq_iff tab.bytes_received 0).0 nothing)) h.books;
  })
  | inr some_bytes ↦
      rw some_bytes (emit-Owes k (traffic_event tab true) _ (record { books = h.books }))
]

pub flush_closed_tabs-Owes :
    (tabs : List TabTraffic) (m : Monitor)
    → Owes (sum_by unreported tabs) m
    → IsAccounted (flush_closed_tabs tabs m)
unfolding flush_closed_tabs
flush_closed_tabs-Owes [] m h = h
flush_closed_tabs-Owes (tab ∷ tabs) m h = flush_closed_tabs-Owes tabs (flush_closed_tab tab m) (
    flush_closed_tab-Owes (sum_by unreported tabs) tab m
      (record { books = rebook (omega arith) h.books }))

pub close_tab-Owes :
    (now sid : String) (m : Monitor)
    → IsAccounted m
    → let (tab, traffic) = close_tab now sid m.traffic in
      Owes (sum_by unreported (present tab [])) (record m { traffic = traffic })
close_tab-Owes now sid m h = record {
  books = rebook (omega arith) (close_tab-settles _ now sid m.traffic h.books);
}

pub flush_all-Owes :
    (clock : String → String) (m : Monitor) → IsAccounted m → IsAccounted (flush_all clock m)
unfolding flush_all close_all
flush_all-Owes clock m h =
    let s = m.traffic in
    let (tabs, traffic) = close_each clock (keys s.tab_by_session) s in
    flush_closed_tabs-Owes tabs (record m { traffic = traffic })
      (record {
        books = rebook (omega arith) (close_each-settles clock (keys s.tab_by_session) _ s h.books);
      })
