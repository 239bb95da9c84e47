-- ===== src/Language.antt =====
-- The tables of texts and styles that the pages share: `HostWData.update` (web/static/js/js.js),
-- the styles and the keys of the search (web/static/js/language.js).
pub mod Laws
mod Tests
use yulong.Prelude.{Bool, true, false, List, [], ◌∷◌, ◌++◌, Option, none, some, map}
use yulong.Text.{JsString, codes}
use yulong.Dict.{put_field, get_field}

-- A table of `HostWData`: its keys and values.
abbrev pub Table : Type 0 → Type 0
Table V = List (JsString × V)

module _ {V : Type 0} where
  -- `for (key in dict) table[key] = dict[key]`
  unfoldable pub put_all : Table V → Table V → Table V
  put_all [] table = table
  put_all ((key, v) ∷ dict) table = put_all dict (put_field key v table)

  -- `if (!HostWData[name]) HostWData[name] = {}`
  abbrev pub table_of : Option (Table V) → Table V
  table_of none = []
  table_of (some table) = table

  -- `HostWData.update`; the second result tells whether `onload` is called, which it is if it is set.
  unfoldable pub update : Bool → JsString → Table V → Table (Table V) → Table (Table V) × Bool
  unfolding put_all
  update has_onload name dict tables =
      (put_field name (put_all dict (table_of (get_field name tables))) tables, has_onload)

-- The classes of a notice's level and status.
abbrev pub notice_style : Table (Table JsString)
notice_style =
    (
      codes "level",
      (codes "2", codes "badge badge-info")
          ∷ (codes "1", codes "badge badge-warning")
          ∷ (codes "0", codes "badge badge-danger")
          ∷ [],
    )
    ∷ (
      codes "status",
      (codes "1", codes "badge badge-success")
          ∷ (codes "0", codes "badge badge-danger")
          ∷ (codes "2", codes "badge badge-info")
          ∷ [],
    )
    ∷ []

-- `global_data_info`: the keys that the data of each kind of event can be searched by, with what
-- they mean.
abbrev pub global_data_info : Table (Table JsString)
global_data_info =
    (
      codes "crontab",
      (codes "name", codes "计划任务名")
          ∷ (codes "command", codes "要执行的程序或命令以及参数")
          ∷ (codes "arg", codes "启动参数")
          ∷ (codes "user", codes "启动用户")
          ∷ (codes "rule", [])
          ∷ (codes "description", codes "描述")
          ∷ [],
    )
    ∷ (
      codes "listening",
      (codes "proto", codes "类型")
          ∷ (codes "address", codes "监听地址")
          ∷ (codes "name", codes "监听程序名")
          ∷ (codes "pid", codes "监听程序pid")
          ∷ [],
    )
    ∷ (
      codes "service",
      (codes "name", codes "服务名")
          ∷ (codes "pathname", codes "启动命令，同command")
          ∷ (codes "started", codes "当前启动状态")
          ∷ (codes "startmode", codes "开机启动模式")
          ∷ (codes "startname", codes "启动用户")
          ∷ (codes "caption", codes "描述")
          ∷ [],
    )
    ∷ (
      codes "startup",
      (codes "name", codes "名称")
          ∷ (codes "command", codes "启动程序或命令")
          ∷ (codes "location", codes "来源")
          ∷ (codes "user", codes "启动用户")
          ∷ [],
    )
    ∷ (
      codes "userlist",
      (codes "name", codes "用户名")
          ∷ (codes "description", codes "描述")
          ∷ (codes "status", codes "状态")
          ∷ [],
    )
    ∷ (
      codes "file",
      (codes "path", codes "文件或者目录路径 file")
          ∷ (codes "action", codes "行为类型")
          ∷ (codes "user", codes "操作用户")
          ∷ (codes "hash", codes "文件md5 hash")
          ∷ [],
    )
    ∷ (
      codes "loginlog",
      (codes "username", codes "用户名")
          ∷ (codes "hostname", codes "远程主机名")
          ∷ (codes "remote", codes "远程IP")
          ∷ (codes "status", codes "认证结果")
          ∷ (codes "time", codes "时间")
          ∷ [],
    )
    ∷ (
      codes "process",
      (codes "name", codes "进程名")
          ∷ (codes "command", codes "程序或命令以及参数")
          ∷ (codes "pid", codes "进程pid")
          ∷ (codes "ppid", codes "父进程pid")
          ∷ (codes "parentname", codes "父进程名")
          ∷ [],
    )
    ∷ (
      codes "connection",
      (codes "dir", codes "方向 ")
          ∷ (codes "protocol", codes "类型（TCP、UDP） type")
          ∷ (codes "local", codes "本机进行通讯ip:port ")
          ∷ (codes "remote", codes "远程进行通讯的ip:port")
          ∷ (codes "name", codes "进程名")
          ∷ (codes "pid ", codes "进程pid")
          ∷ [],
    )
    ∷ []
