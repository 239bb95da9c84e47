-- ===== src/Hosts/Tests.antt =====
-- Runs of the host list, and instances of its theorems.
use yulong.Prelude.{refl, true, List, [], ◌∷◌, some, inl}
use yulong.Text.{JsString, codes}
use yulong.Url.Tests.{plain_hash}
use yulong.Hosts.{Event, State, later_events, show, events, act, answer}
use yulong.Hosts.Monitor.{IsConsistent, here, acted, answered, Reach-IsConsistent}

abbrev start : State
start = record {
  current_page = 1;
  hosts = [];
  search_filter = [];
  command_show = true;
  host_filter_history = [];
  current_monitor_url = [];
  timer = 0;
  has_show_ids = [];
  shown = [];
  intervals = [];
}

abbrev client_url : JsString
client_url = codes "/json/client"

abbrev two_events : List Event
two_events =
    record { id = some (codes "e1"); message = codes "login" }
    ∷ record { id = some (codes "e2"); message = codes "exec" }
    ∷ []

abbrev opened : State
opened = (act plain_hash client_url (show (codes "10.0.0.9") 7) start).0

start-IsConsistent : IsConsistent start
start-IsConsistent = record { distinct = tt; remembered = refl; one_timer = inl refl }

Reach-IsConsistent_example :
    IsConsistent (answer plain_hash client_url later_events (events (some two_events)) opened).0
Reach-IsConsistent_example =
    Reach-IsConsistent plain_hash client_url start-IsConsistent
      (answered later_events (events (some two_events)) (acted (show (codes "10.0.0.9") 7) here))
