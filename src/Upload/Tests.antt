-- ===== src/Upload/Tests.antt =====
-- Runs of the uploads, and instances of their theorems.
use yulong.Prelude.{◌≡◌, refl, true, []}
use yulong.Text.{codes}
use yulong.Url.{url_update_query}
use yulong.Url.Tests.{plain_hash}
use yulong.Upload.{Agent, no_agent, State, act, select_file_type}

abbrev linux : Agent
linux = record { system = codes "linux"; platform = codes "64" }

abbrev page : State
page = record {
  file_url = codes "/json/file";
  upload_url = [];
  url = [];
  agent_type = no_agent;
  upload_system = [];
  fileinfo = codes "请选择文件";
  files = [];
}

upload_url_linux :
    (act plain_hash true (select_file_type linux) page).0.upload_url
    ≡ codes "/json/file?system=linux&platform=64"
unfolding act url_update_query
upload_url_linux = refl
