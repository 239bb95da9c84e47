-- ===== src/Backend/Queue.antt =====
-- The queue of a task: `Task.Save` (web/models/task.go), which puts the hosts of a task into the
-- queue, and `TaskController.Post` (web/controllers/task.go). The logged errors are left out.
pub mod Laws
mod Tests
use yulong.Prelude.{Bool, true, false, List, [], ◌∷◌, ◌++◌, Option, none, some, map, if◌then◌else◌}
use yulong.Text.{JsString, codes, str_eq, includes, split_char}
use yulong.Page.{Reply}
use yulong.Backend.Access.{string_in_slice}
use yulong.Backend.Net.{Net, between_ip}

-- `kind` is the field `Type`.
pub record Task : Type 0 where
  pub host_list : List JsString
  pub kind : JsString
  pub command : JsString

-- One document of the collection `queue`, but for its time.
pub record Entry : Type 0 where
  pub task_id : JsString
  pub kind : JsString
  pub command : JsString
  pub ip : JsString

-- What surrounds `Save`: the new identifier, whether MongoDB inserts the task and an entry, and the
-- addresses that `Distinct` gives of all clients and of those of each system, none of them twice.
pub record Surroundings : Type 0 where
  pub id : JsString
  pub inserts_task : Bool
  pub inserts : Entry → Bool
  pub all_ips : List JsString
  pub windows_ips : List JsString
  pub linux_ips : List JsString

-- `DeleteElementInSlient`: the first occurrence goes.
unfoldable pub delete_element_in_slient : List JsString → JsString → List JsString
delete_element_in_slient [] s = []
delete_element_in_slient (v ∷ sl) s =
    let rest = delete_element_in_slient sl s in if str_eq v s then sl else v ∷ rest

-- The tag "all" stands for the addresses of all clients, "windows" and "linux" for those of theirs.
abbrev pub enable_all : List JsString → List JsString → List JsString
enable_all ips hosts = if string_in_slice (codes "all") hosts then ips else hosts

abbrev pub enable_system : JsString → List JsString → List JsString → List JsString
enable_system system ips hosts =
    if string_in_slice system hosts then delete_element_in_slient hosts system ++ ips else hosts

abbrev pub enable_tags : Surroundings → List JsString → List JsString
enable_tags sur hosts =
    enable_system (codes "linux") sur.linux_ips
      (enable_system (codes "windows") sur.windows_ips (enable_all sur.all_ips hosts))

module _ {Ip : Type 0} (net : Net Ip) (sur : Surroundings) (task : Task) where
  abbrev pub entry : JsString → Entry
  entry ip = record { task_id = sur.id; kind = task.kind; command = task.command; ip = ip }

  -- An entry that is not inserted is passed over.
  unfoldable pub add_queue : JsString → List Entry → List Entry
  add_queue ip queue = if sur.inserts (entry ip) then queue ++ entry ip ∷ [] else queue

  -- A range: each of its addresses is queued, and each time the range's text is remembered.
  abbrev pub add_range :
      JsString → List JsString → List JsString × List Entry → List JsString × List Entry
  add_range ip [] s = s
  add_range ip (sub_ip ∷ sub_ip_lst) (added_lst, queue) =
      add_range ip sub_ip_lst (added_lst ++ ip ∷ [], add_queue sub_ip queue)

  -- The addresses of a host with a dash; `none` is a panic.
  abbrev pub sub_ips : List JsString → Option (List JsString)
  sub_ips (from ∷ to ∷ []) = between_ip net from to
  sub_ips ori_lst = some []

  -- The loop over the hosts, which a host that was added already ends; false is a panic.
  unfoldable pub add_hosts : List JsString → List JsString → List Entry → Bool × List Entry
  unfolding add_queue string_in_slice split_char between_ip
  add_hosts [] added_lst queue = (true, queue)
  add_hosts (ip ∷ hosts) added_lst queue =
      if string_in_slice ip added_lst
      then (true, queue)
      else if includes b'-' ip
      then elim (sub_ips (split_char b'-' ip)) [
        | none ↦ (false, queue)
        | some sub_ip_lst ↦
            let (added, queued) = add_range ip sub_ip_lst (added_lst, queue) in
            add_hosts hosts added queued
      ]
      else add_hosts hosts (added_lst ++ ip ∷ []) (add_queue ip queue)

  -- What `Save` returns, `none` behind a panic, with the queue.
  unfoldable pub save : List Entry → Option Bool × List Entry
  unfolding add_hosts delete_element_in_slient
  save queue =
      if sur.inserts_task
      then (let (ok, queued) = add_hosts (enable_tags sur task.host_list) [] queue in
          (if ok then some true else none, queued))
      else (some false, queue)

-- `TaskController.Post`, from the task that `json.Unmarshal` reads, `none` behind an error, and what
-- `Save` does with it.
abbrev pub add_task_failure : Reply
add_task_failure = record { status = some false; msg = codes "添加任务失败" }

abbrev pub task_added : Reply
task_added = record { status = some true; msg = codes "添加任务成功" }

abbrev pub post_reply : Option Bool × List Entry → Option Reply × List Entry
post_reply (none, queue) = (none, queue)
post_reply (some false, queue) = (some add_task_failure, queue)
post_reply (some true, queue) = (some task_added, queue)

unfoldable pub post_task :
    {Ip : Type 0} → Net Ip → Surroundings → Option Task → List Entry → Option Reply × List Entry
unfolding save
post_task net sur none queue = (some add_task_failure, queue)
post_task net sur (some task) queue = post_reply (save net sur task queue)
