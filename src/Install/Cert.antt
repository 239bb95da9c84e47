-- ===== src/Install/Cert.antt =====
-- The test that the install wizard makes of a certificate (web/static/upload/main.js):
-- /^-----BEGIN CERTIFICATE-----([\n\r]+[^-]+)+\n-----END CERTIFICATE-----/
pub mod Laws
use yulong.Prelude.{
  ℕ, Bool, true, false, ◌&&◌, ◌||◌, not, List, [], ◌∷◌, ◌++◌, Option, none, some, ◌==◌,
}
use yulong.Text.{JsString, codes, strip_prefix}

-- `[\n\r]`
abbrev pub is_break : ℕ → Bool
is_break c = c == 10 || c == 13

-- `[^-]`
abbrev pub is_plain : ℕ → Bool
is_plain c = not (c == b'-')

abbrev pub begin_line : JsString
begin_line = codes "-----BEGIN CERTIFICATE-----"

abbrev pub end_line : JsString
end_line = codes "-----END CERTIFICATE-----"

unfoldable pub starts_with : JsString → JsString → Bool
starts_with p s = elim (strip_prefix p s) [ none ↦ false | some t ↦ true ]

-- The rest of the body, `[^-]*\n` and the last line.
unfoldable pub ends_body : JsString → Bool
unfolding starts_with
ends_body [] = false
ends_body (c ∷ s) = c == 10 && starts_with end_line s || is_plain c && ends_body s

-- The groups `([\n\r]+[^-]+)+` and what follows them: a line break, and a first character of
-- `[^-]+`. Whatever the groups take behind these two is text without a dash.
unfoldable pub has_body : JsString → Bool
unfolding ends_body
has_body [] = false
has_body (c ∷ []) = false
has_body (c ∷ d ∷ s) = is_break c && (is_plain d && ends_body s)

-- `re.test(cert)`; nothing is asked of what follows the last line.
unfoldable pub test_cert : JsString → Bool
unfolding has_body
test_cert cert = elim (strip_prefix begin_line cert) [ none ↦ false | some s ↦ has_body s ]
