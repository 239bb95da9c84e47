-- ===== src/Task/Tests.antt =====
-- Runs of the form for a new task, and instances of its theorems.
use yulong.Prelude.{true, ◌≡◌, refl, List, [], ◌∷◌, some, arith}
use yulong.Text.{JsString, codes}
use yulong.Page.{Json, array, items, object, fields, send, post, enable_pass}
use yulong.Url.Tests.{plain_hash}
use yulong.Task.{newtask, post_task, task_added, Input, put_inputs}
use yulong.Dict.{get_field}
use yulong.Task.Laws.{missing, host_input, newtask-host_list}

abbrev form : List Input
form =
    record { name = codes "name"; value = codes "clean" }
    ∷ record { name = codes "host_list"; value = codes "10.0.0.1,10.0.0.2" }
    ∷ record { name = codes "command"; value = [] }
    ∷ []

hosts_sent :
    get_field (codes "host_list") (put_inputs form [])
    ≡ some (array (items (codes "10.0.0.1" ∷ codes "10.0.0.2" ∷ [])))
unfolding put_inputs
hosts_sent = refl

nothing_missing : missing form ≡ []
nothing_missing = refl

typed_hosts :
    host_input (codes "10.0.0.1" ∷ codes "10.0.0.2" ∷ [])
    ≡ record { name = codes "host_list"; value = codes "10.0.0.1,10.0.0.2" }
typed_hosts = refl

newtask-host_list_example :
    (json : List (JsString × Json)) × ((post_task plain_hash true
        (codes "/json/tasks")
        (codes "pw")
        (newtask plain_hash true (codes "/json/tasks") form [] (record { json = [] })).0).1
      ≡ send
          (record {
            method = post;
            url = enable_pass plain_hash (codes "/json/tasks") (codes "pw");
            body = some (object (fields json));
          })
          task_added
        ∷ [])
    × (get_field (codes "host_list") json
        ≡ some (array (items (codes "10.0.0.1" ∷ codes "10.0.0.2" ∷ []))))
newtask-host_list_example =
    newtask-host_list plain_hash (codes "/json/tasks")
      (record { name = codes "name"; value = codes "clean" } ∷ [])
      (record { name = codes "command"; value = [] } ∷ []) [] (codes "10.0.0.1")
      (codes "10.0.0.2" ∷ []) b'p' (codes "w") (record { json = [] }) (ground arith) (refl, tt) tt
