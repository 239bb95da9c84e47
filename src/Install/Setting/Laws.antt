-- ===== src/Install/Setting/Laws.antt =====
-- What the last step of the wizard sends.
use yulong.Prelude.{◌≡◌, ◌⊎◌, refl, inl, inr, true, [], ◌∷◌, Bool-cases}
use yulong.Text.{JsString, codes}
use yulong.Page.{send, alert, error}
use yulong.Install.Cert.{test_cert}
use yulong.Install.Cert.Laws.{Matches, test_cert_iff}
use yulong.Install.Setting.{State, setting_request, setting_added, act, init_setting}

module _ (anchor_hash : JsString → JsString) (href : JsString) where
  -- The settings are sent just when the certificate has the form that the regular expression
  -- describes, with that certificate; else the operator gets a message, and nothing is sent.
  pub init_setting-Matches :
      (ip process cert : JsString) (s : State)
      → (Matches cert
          × ((act anchor_hash href (init_setting ip process cert) s).1
              ≡ send (setting_request anchor_hash href ip process cert) setting_added ∷ []))
        ⊎ ((¬ Matches cert)
            × ((act anchor_hash href (init_setting ip process cert) s).1
                ≡ alert error (codes "证书格式错误") (codes "前后记得不要有换行或者空格哦") ∷ []))
  unfolding act
  init_setting-Matches ip process cert s = elim (Bool-cases (test_cert cert)) [
    | inl e ↦ inl ((test_cert_iff cert).0 e, rw (act, e) refl)
    | inr e ↦
        inr (λ m. let e' : test_cert cert ≡ true = (test_cert_iff cert).1 m in cc, rw (act, e) refl)
  ]
