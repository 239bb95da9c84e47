-- ===== src/Messages/Tests.antt =====
-- Runs of the messages, and an instance of their theorem.
use yulong.Prelude.{◌+◌, ◌≡◌, refl, [], ◌++◌, none, some}
use yulong.Text.{JsString, codes}
use yulong.Messages.{Event, file, other, message, thrown, format_msg, timeformat, title, key}
use yulong.Messages.Laws.{count, weights, values_of, format_msg-Tags}

abbrev time : JsString → JsString
time s = s

-- A file whose name holds a tag.
abbrev upload : Event
upload = record {
  source = file (record {
    action = some (codes "write");
    path = some (codes "/w/<img>");
    hash = none;
    user = some [];
  });
  time = some (codes "10:00");
}

abbrev shown : JsString
shown =
    title (codes "文件信息")
    ++ (key (codes "操作类型")
        ++ (codes "write  "
            ++ (key (codes "文件路径") ++ (codes "/w/<img>  " ++ (key (codes "时间") ++ codes "10:00")))))

upload_message : format_msg time (codes "now") upload ≡ message shown
unfolding format_msg timeformat
upload_message = refl

unknown_type :
    format_msg time (codes "now") (record { source = other (codes "service"); time = none })
    ≡ thrown
unfolding format_msg
unknown_type = refl

format_msg-Tags_example :
    count b'<' shown
    ≡ 4 + weights (values_of upload.source) + count b'<' (timeformat time (codes "now") upload.time)
format_msg-Tags_example = format_msg-Tags time (codes "now") upload shown upload_message
