-- ===== src/Messages/Laws.antt =====
-- The texts of an event are HTML in its message.
use yulong.Prelude.{
  ℕ, suc, ◌+◌, ◌≡◌, refl, List, [], ◌∷◌, ◌++◌, Option, none, some, if◌then◌else◌, ◌==◌, arith,
  Bool-cases, inl, inr, All,
}
use yulong.Text.{JsString, codes, str_eq}
use yulong.Messages.{
  Event, Source, connection, file, process, login, other, untyped, Connection, File, Process, Login,
  message, is_shown, text_of, key, part, direction, named, timeformat, format_msg,
  format_connection_msg, format_file_msg, format_process_msg, format_loginlog_msg,
}

abbrev pub count : ℕ → JsString → ℕ
count c [] = 0
count c (d ∷ s) = let rest = count c s in if d == c then suc rest else rest

count-append : (c : ℕ) (s t : JsString) → count c (s ++ t) ≡ count c s + count c t
count-append c [] t = omega arith
count-append c (d ∷ s) t = ground (arith, count-append c s t)

-- The `<` that a value brings into a message: those of its label, and its own.
abbrev pub weight : Option JsString → ℕ
weight v = if is_shown v then 2 + count b'<' (text_of v) else 0

abbrev pub weights : List (Option JsString) → ℕ
weights [] = 0
weights (v ∷ vs) = weight v + weights vs

-- The values that a message shows.
abbrev pub values_of : Source → List (Option JsString)
values_of (connection c) = c.remote ∷ c.local ∷ c.name ∷ c.pid ∷ c.protocol ∷ []
values_of (file f) = f.action ∷ f.path ∷ f.hash ∷ f.user ∷ []
values_of (process p) = p.command ∷ named p.name p.pid ∷ named p.parentname p.ppid ∷ []
values_of (login l) = l.hostname ∷ l.remote ∷ l.username ∷ l.status ∷ []
values_of (other kind) = []
values_of untyped = []

count-key :
    (label rest : JsString)
    → count b'<' label ≡ 0
    → count b'<' (key label ++ rest) ≡ 2 + count b'<' rest
count-key label rest h = omega (
  arith,
  h,
  count-append b'<' (label ++ codes ":</span>") rest,
  count-append b'<' label (codes ":</span>"),
)

count-part :
    (label : JsString) (v : Option JsString) (rest : JsString)
    → count b'<' label ≡ 0
    → count b'<' (part label v rest) ≡ weight v + count b'<' rest
unfolding part
count-part label v rest h = elim (Bool-cases (is_shown v)) [
  | inl e ↦
      rw (part, e)
        (omega (
          arith,
          count-key label (text_of v ++ (codes "  " ++ rest)) h,
          count-append b'<' (text_of v) (codes "  " ++ rest),
        ))
  | inr e ↦ rw (part, e) (omega arith)
]

message_injective : {s t : JsString} → message s ≡ message t → s ≡ t
message_injective h = cc

-- The parts of a message, with what follows them.
abbrev parts : List (JsString × Option JsString) → JsString → JsString
parts [] rest = rest
parts ((label, v) ∷ ps) rest = part label v (parts ps rest)

abbrev values : List (JsString × Option JsString) → List (Option JsString)
values [] = []
values ((label, v) ∷ ps) = v ∷ values ps

count-parts :
    (ps : List (JsString × Option JsString)) (rest : JsString)
    → All (λ p. count b'<' p.0 ≡ 0) ps
    → count b'<' (parts ps rest) ≡ weights (values ps) + count b'<' rest
count-parts [] rest h = omega arith
count-parts ((label, v) ∷ ps) rest (p, h) =
    omega (arith, count-part label v (parts ps rest) p, count-parts ps rest h)

count-direction :
    (dir : Option JsString) (rest : JsString) → count b'<' (direction dir ++ rest) ≡ count b'<' rest
count-direction none rest = refl
count-direction (some dir) rest = elim (Bool-cases (str_eq dir (codes "out"))) [
  | inl e ↦ rw e refl
  | inr e ↦ rw e refl
]

module _ (locale_string : JsString → JsString) (now : JsString) where
  abbrev ending : Option JsString → JsString
  ending time = key (codes "时间") ++ timeformat locale_string now time

  abbrev Tags : JsString → Source → Option JsString → Type 0
  Tags text source time =
      count b'<' text
      ≡ 4 + weights (values_of source) + count b'<' (timeformat locale_string now time)

  connection-Tags :
      (c : Connection) (time : Option JsString)
      → Tags (format_connection_msg locale_string now c time) (connection c) time
  unfolding format_connection_msg
  connection-Tags c time =
      let ps : List (JsString × Option JsString) =
        (codes "远程地址", c.remote)
        ∷ (codes "本地地址", c.local)
        ∷ (codes "进程名", c.name)
        ∷ (codes "PID", c.pid)
        ∷ (codes "网络类型", c.protocol)
        ∷ [] in
      omega (
        arith,
        count-direction c.dir (parts ps (ending time)),
        count-parts ps (ending time) (refl, (refl, (refl, (refl, (refl, tt))))),
      )

  file-Tags :
      (f : File) (time : Option JsString)
      → Tags (format_file_msg locale_string now f time) (file f) time
  unfolding format_file_msg
  file-Tags f time = omega (
    arith,
    count-parts
        ((codes "操作类型", f.action)
          ∷ (codes "文件路径", f.path)
          ∷ (codes "文件hash", f.hash)
          ∷ (codes "用户", f.user)
          ∷ [])
        (ending time) (refl, (refl, (refl, (refl, tt)))),
  )

  process-Tags :
      (p : Process) (time : Option JsString)
      → Tags (format_process_msg locale_string now p time) (process p) time
  unfolding format_process_msg
  process-Tags p time = omega (
    arith,
    count-parts
        ((codes "命令", p.command)
          ∷ (codes "进程信息", named p.name p.pid)
          ∷ (codes "父进程信息", named p.parentname p.ppid)
          ∷ [])
        (ending time) (refl, (refl, (refl, tt))),
  )

  login-Tags :
      (l : Login) (time : Option JsString)
      → Tags (format_loginlog_msg locale_string now l time) (login l) time
  unfolding format_loginlog_msg
  login-Tags l time = omega (
    arith,
    count-parts
        ((codes "主机名", l.hostname)
          ∷ (codes "remote", l.remote)
          ∷ (codes "用户名", l.username)
          ∷ (codes "登录状态", l.status)
          ∷ [])
        (ending time) (refl, (refl, (refl, (refl, tt)))),
  )

  outcome-Tags :
      (source : Source) (time : Option JsString) (text : JsString)
      → format_msg locale_string now (record { source = source; time = time }) ≡ message text
      → Tags text source time
  unfolding format_msg
  outcome-Tags (connection c) time text h = rw (← message_injective h) (connection-Tags c time)
  outcome-Tags (file f) time text h = rw (← message_injective h) (file-Tags f time)
  outcome-Tags (process p) time text h = rw (← message_injective h) (process-Tags p time)
  outcome-Tags (login l) time text h = rw (← message_injective h) (login-Tags l time)
  outcome-Tags (other kind) time text h = cc
  outcome-Tags untyped time text h = cc

  -- The `<` of a message are four of its title and its time, two of each value that it shows, and
  -- each `<` of those values and of the time: none of the event's own is escaped.
  pub format_msg-Tags :
      (e : Event) (text : JsString)
      → format_msg locale_string now e ≡ message text
      → count b'<' text
        ≡ 4 + weights (values_of e.source) + count b'<' (timeformat locale_string now e.time)
  format_msg-Tags e text h = outcome-Tags e.source e.time text h
