-- ===== src/Dashboard/Tests.antt =====
-- A tick over two targets with one tab open, and the requests to one host.
use pulse_monitor.Dashboard.Ticks.{tick_events, tick_reaches_tabs}
use pulse_monitor.Dashboard.TabStreams.{LacksReturns, tick_is_read}
use pulse_monitor.Dashboard.Drains.{drains, at_hub}
use pulse_monitor.Dashboard.{deliver}
use pulse_monitor.Handlers.Events.Tabs.{IsNew}
use pulse_monitor.Handlers.Events.{Session, run as run_session, wire, open_session}
use pulse_monitor.Handlers.Views.{View, check_status, stats_cell, Rendered}
use pulse_monitor.Monitor.Tick.{Answers, tick}
use pulse_monitor.Monitor.Types.{Target, CheckResult}
use pulse_monitor.Prelude.{◌≡◌, refl, true, [], ◌∷◌, ◌++◌, map, none, some, arith}
use pulse_monitor.Result.{ok}
use pulse_monitor.Sse.Frame.{frame}
use pulse_monitor.Sse.Frame.Reader.{read_stream}
use pulse_monitor.Sse.Hub.World.{World}
use pulse_monitor.Text.Split.{lacks_lem}
use pulse_monitor.Sse.Hub.Publish.{IsKeySet}
use pulse_monitor.Sse.Hub.{Hub, contains}
use pulse_monitor.Text.{Text, codes}

abbrev site : Target
site = record { id = codes "1"; url = codes "http://a.test" }

abbrev shown : View → Text
shown (check_status v) = v.status
shown (stats_cell v) = v.id
shown _ = []

abbrev render : View → Rendered
render v = record { written = shown v; error = none }

abbrev up : Target → CheckResult
up t = record { target = t; status_code = 200; duration = 0; error = none; checked_at = 0 }

abbrev answers : Answers
answers = record {
  list_targets = ok (site ∷ []);
  record_check = λ r. none;
  recent_stats = λ id. ok (record {
    target_id = id;
    total_checks = 1;
    failures = 0;
    p50_latency_ms = 0;
    p99_latency_ms = 0;
  });
}

abbrev one_tab : Hub
one_tab = record { clients = 1 ∷ []; channels = λ c. record { capacity = 32; buffer = [] } }

one_tab-contains : contains 1 one_tab.clients ≡ true
unfolding contains
one_tab-contains = refl

one_tab-IsKeySet : IsKeySet one_tab.clients
unfolding contains
one_tab-IsKeySet = (refl, tt)

tick_reaches_tabs_example :
    (h : Hub) × (deliver render (tick true (map up) (some answers)) (some one_tab) ≡ some h)
    × ((h.channels 1).buffer
        ≡ [] ++ map frame (tick_events render answers (map up (site ∷ [])) (site ∷ [])))
tick_reaches_tabs_example =
    tick_reaches_tabs render answers (map up) (site ∷ []) one_tab 1 refl one_tab-IsKeySet
      one_tab-contains (omega arith)

-- No tab yet, and templates that write no carriage return.
abbrev quiet : World
quiet = record {
  hub = record { clients = []; channels = λ c. record { capacity = 32; buffer = [] } };
  received = λ c. [];
}

quiet-IsNew : IsNew 1 quiet
quiet-IsNew = record { empty = refl; capacity = refl; unread = refl }

abbrev cells : View → Rendered
cells v = record { written = codes "<td>"; error = none }

cells-LacksReturns : LacksReturns cells
cells-LacksReturns v = lacks_lem b'\r' (codes "<td>") refl

tick_is_read_example :
    (h : Hub) × (deliver cells
        (tick true (map up) (some answers))
        (some (open_session 1 quiet).world.hub)
      ≡ some h)
    × (s : Session) × (run_session 1
          (drains (tick_events cells answers (map up (site ∷ [])) (site ∷ [])))
          (at_hub h (open_session 1 quiet))
        ≡ some s)
    × (read_stream (wire s.writes) ≡ tick_events cells answers (map up (site ∷ [])) (site ∷ []))
tick_is_read_example =
    tick_is_read cells answers (map up) (site ∷ []) 1 quiet refl tt quiet-IsNew cells-LacksReturns
      (omega arith)
