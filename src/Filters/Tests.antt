-- ===== src/Filters/Tests.antt =====
-- Runs of the filters, and instances of their theorems.
use yulong.Prelude.{◌≡◌, refl, true, [], ◌∷◌, some}
use yulong.Text.{codes}
use yulong.Filters.{cut, shorten, remove_all, json_value_to_string}
use yulong.Filters.Laws.{remove_all-without_all}

cut_at_word : cut (codes "one two, three") true 10 [] ≡ codes "one two …"
unfolding cut
cut_at_word = refl

rows :
    json_value_to_string
      ((codes "name", codes "sshd")
        ∷ (codes "object", codes "x")
        ∷ (codes "path", codes "/usr/sbin/sshd")
        ∷ [])
      (codes ",")
    ≡ codes "sshd,/usr/sbin/sshd ..."
unfolding json_value_to_string
rows = refl

marked_whole : shorten (codes "/usr/sbin/sshd") ≡ codes "/usr/sbin/sshd ..."
unfolding shorten
marked_whole = refl

remove_all-without_all_example :
    remove_all (codes "b" ∷ []) (codes "a" ∷ codes "b" ∷ codes "b" ∷ []) ≡ some (codes "a" ∷ [])
remove_all-without_all_example =
    remove_all-without_all (codes "b" ∷ []) (codes "a" ∷ codes "b" ∷ codes "b" ∷ [])
