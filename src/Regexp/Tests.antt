-- ===== src/Regexp/Tests.antt =====
-- Runs of the regular expressions, and instances of their theorems.
use yulong.Prelude.{◌≡◌, refl, some}
use yulong.Text.{codes}
use yulong.Regexp.{is_escaped, escape_regexp, string2regexp}
use yulong.Regexp.Laws.{exact_literal, exact_literal-string2regexp}

escaped : string2regexp (codes "a.b|c") ≡ codes "^a\\.b\\|c$"
unfolding string2regexp escape_regexp is_escaped
escaped = refl

exact_literal-string2regexp_example :
    exact_literal (string2regexp (codes "/bin/sh -c")) ≡ some (codes "/bin/sh -c")
exact_literal-string2regexp_example = exact_literal-string2regexp (codes "/bin/sh -c")
