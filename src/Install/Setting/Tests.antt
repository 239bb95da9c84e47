-- ===== src/Install/Setting/Tests.antt =====
-- Runs of the wizard's last step, and instances of its theorems.
use yulong.Prelude.{◌≡◌, ◌↔◌, refl, true, false, [], ◌∷◌, ◌++◌, none, some}
use yulong.Text.{JsString, codes}
use yulong.Url.{url_update_query}
use yulong.Url.Tests.{plain_hash}
use yulong.Page.{alert, warning}
use yulong.Install.Cert.{test_cert, begin_line, end_line}
use yulong.Install.Cert.Laws.{Matches, test_cert_iff}
use yulong.Install.Setting.{State, answer, key_created, key, done_buttons, later_items}

abbrev href : JsString
href = codes "/install?step=4"

abbrev page : State
page = record { cert = none; placeholder = false; link = none; setting_enabled = false }

abbrev cert : JsString
cert = begin_line ++ 13 ∷ 10 ∷ codes "MIIB" ++ (10 ∷ end_line)

accepted : test_cert cert ≡ true
unfolding test_cert
accepted = refl

-- A dash in the body is refused.
refused : test_cert (begin_line ++ 10 ∷ codes "MI-B" ++ (10 ∷ end_line)) ≡ false
unfolding test_cert
refused = refl

third_step : done_buttons 3 ≡ 1 ∷ 2 ∷ []
unfolding done_buttons
third_step = refl

last_items : later_items 3 ≡ 4 ∷ []
unfolding later_items
last_items = refl

no_certificate :
    answer plain_hash href key_created
      (key (record { reply = record { status = some true; msg = codes "no openssl" }; cert = [] }))
      page
    ≡ (
      record page {
        placeholder = true;
        link = some (codes "/install?step=4&download=private");
        setting_enabled = true;
      },
      alert warning (codes "无法自动化生成证书请手动生成") (codes "no openssl") ∷ [],
    )
unfolding answer url_update_query
no_certificate = refl

test_cert_iff_example : (test_cert cert ≡ true) ↔ Matches cert
test_cert_iff_example = test_cert_iff cert
