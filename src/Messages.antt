-- ===== src/Messages.antt =====
-- The messages that show an event of a host: `format_connection_msg` and its like
-- (web/static/js/language.js), `timeformat` and `format_monitor_msg` (web/static/js/js.js). They
-- are HTML, which the window that watches a host puts into the page as it is.
pub mod Laws
mod Tests
use yulong.Prelude.{Bool, true, false, List, [], ◌∷◌, ◌++◌, Option, none, some, if◌then◌else◌}
use yulong.Text.{JsString, codes, truthy, str_eq}

-- A value in a condition: a missing one is false, as is an empty text; 0 counts as missing.
abbrev pub is_shown : Option JsString → Bool
is_shown none = false
is_shown (some s) = truthy s

-- A value behind `+`
abbrev pub text_of : Option JsString → JsString
text_of none = codes "undefined"
text_of (some s) = s

abbrev pub title : JsString → JsString
title name = codes "<span class='title'>" ++ (name ++ codes ":</span>")

abbrev pub key : JsString → JsString
key label = codes "<span class='key'>" ++ (label ++ codes ":</span>")

-- `if (value) msg += …`, from the end of the message.
unfoldable pub part : JsString → Option JsString → JsString → JsString
part label value rest =
    if is_shown value then key label ++ (text_of value ++ (codes "  " ++ rest)) else rest

pub record Connection : Type 0 where
  pub dir : Option JsString
  pub remote : Option JsString
  pub local : Option JsString
  pub name : Option JsString
  pub pid : Option JsString
  pub protocol : Option JsString

pub record File : Type 0 where
  pub action : Option JsString
  pub path : Option JsString
  pub hash : Option JsString
  pub user : Option JsString

pub record Process : Type 0 where
  pub command : Option JsString
  pub name : Option JsString
  pub pid : Option JsString
  pub parentname : Option JsString
  pub ppid : Option JsString

pub record Login : Type 0 where
  pub hostname : Option JsString
  pub remote : Option JsString
  pub username : Option JsString
  pub status : Option JsString

-- The `data` of an event by its `_type`; `other` is a type for which there is no function.
pub data Source : Type 0 where
  connection : Connection → Source
  file : File → Source
  process : Process → Source
  login : Login → Source
  other : JsString → Source
  untyped : Source

-- `time` is the event's time, if it has one.
pub record Event : Type 0 where
  pub source : Source
  pub time : Option JsString

abbrev pub direction : Option JsString → JsString
direction none = codes "入方向|"
direction (some dir) = if str_eq dir (codes "out") then codes "出方向|" else codes "入方向|"

-- `name + ":" + pid`, shown where the name is.
abbrev pub named : Option JsString → Option JsString → Option JsString
named name pid = if is_shown name then some (text_of name ++ b':' ∷ text_of pid) else none

-- What a call gives: a message, `undefined`, or an exception.
pub data Outcome : Type 0 where
  message : JsString → Outcome
  undefined : Outcome
  thrown : Outcome

-- `locale_string` is the browser's `toLocaleString` of the date that a text stands for, `now` that
-- of the present time.
module _ (locale_string : JsString → JsString) (now : JsString) where
  unfoldable pub timeformat : Option JsString → JsString
  timeformat none = now
  timeformat (some datestring) = locale_string datestring

  abbrev time_part : Option JsString → JsString
  time_part time = key (codes "时间") ++ timeformat time

  unfoldable pub format_connection_msg : Connection → Option JsString → JsString
  unfolding part timeformat
  format_connection_msg c time =
      title (codes "网络连接信息")
      ++ (direction c.dir
          ++ part (codes "远程地址") c.remote (
              part (codes "本地地址") c.local (
                part (codes "进程名") c.name
                  (part (codes "PID") c.pid (part (codes "网络类型") c.protocol (time_part time))))))

  unfoldable pub format_file_msg : File → Option JsString → JsString
  unfolding part timeformat
  format_file_msg f time =
      title (codes "文件信息")
      ++ part (codes "操作类型") f.action (
          part (codes "文件路径") f.path
            (part (codes "文件hash") f.hash (part (codes "用户") f.user (time_part time))))

  unfoldable pub format_process_msg : Process → Option JsString → JsString
  unfolding part timeformat
  format_process_msg p time =
      title (codes "进程信息")
      ++ part (codes "命令") p.command (
          part (codes "进程信息") (named p.name p.pid)
            (part (codes "父进程信息") (named p.parentname p.ppid) (time_part time)))

  unfoldable pub format_loginlog_msg : Login → Option JsString → JsString
  unfolding part timeformat
  format_loginlog_msg l time =
      title (codes "登录信息")
      ++ part (codes "主机名") l.hostname (
          part (codes "remote") l.remote
            (part (codes "用户名") l.username (part (codes "登录状态") l.status (time_part time))))

  -- `window["format_" + source_type + "_msg"](data._source)`
  abbrev call_format : Source → Option JsString → Outcome
  call_format (connection c) time = message (format_connection_msg c time)
  call_format (file f) time = message (format_file_msg f time)
  call_format (process p) time = message (format_process_msg p time)
  call_format (login l) time = message (format_loginlog_msg l time)
  call_format (other kind) time = thrown
  call_format untyped time = thrown

  unfoldable pub format_msg : Event → Outcome
  unfolding format_connection_msg format_file_msg format_process_msg format_loginlog_msg
  format_msg e = elim e.source [ untyped ↦ undefined | kind ↦ call_format kind e.time ]

  -- The same without the test of the type.
  unfoldable pub format_monitor_msg : Event → Outcome
  unfolding format_connection_msg format_file_msg format_process_msg format_loginlog_msg
  format_monitor_msg e = call_format e.source e.time
