-- ===== src/History/Laws.antt =====
-- The stored text and the list of entries that it stands for.
use yulong.Prelude.{
  ◌≤◌, ◌≡◌, ◌≢◌, refl, ap, ◌∙◌, inl, inr, true, false, ◌&&◌, ◌||◌, List, [], ◌∷◌, ◌++◌, length,
  arith, ◌==◌, leb, All, All-append, Bool-cases, length-append, append_assoc,
}
use yulong.Text.{JsString, codes, str_eq, join}
use yulong.Text.Laws.{str_eq_iff, str_eq_refl}
use yulong.History.{split_history, separator, listed, shifted, add_entry, add_history}

-- An entry that survives the storage: it holds no `:::` and does not end in `:`.
abbrev pub IsClean : JsString → Type 0
IsClean [] = Unit
IsClean (c ∷ []) = c ≢ b':'
IsClean (c ∷ d ∷ []) = d ≢ b':'
IsClean (c ∷ d ∷ e ∷ t) = ((c == b':' && (d == b':' && e == b':')) ≡ false) × IsClean (d ∷ e ∷ t)

split_history_of_IsClean : (w : JsString) → IsClean w → split_history w ≡ w ∷ []
unfolding split_history
split_history_of_IsClean [] h = refl
split_history_of_IsClean (c ∷ []) h = refl
split_history_of_IsClean (c ∷ d ∷ []) h = refl
split_history_of_IsClean (c ∷ d ∷ e ∷ t) (p, h) =
    rw (p, split_history_of_IsClean (d ∷ e ∷ t) h) refl

split_history-append :
    (w r : JsString) → IsClean w → split_history (w ++ (separator ++ r)) ≡ w ∷ split_history r
unfolding split_history
split_history-append [] r h = refl
split_history-append (c ∷ []) r h = ground arith
split_history-append (c ∷ d ∷ []) r h = ground arith
split_history-append (c ∷ d ∷ e ∷ t) r (p, h) = rw (p, split_history-append (d ∷ e ∷ t) r h) refl

-- Splitting what was joined gives the entries back, if there is one and all are clean.
split_history-join :
    (w : JsString) (ws : List JsString)
    → All IsClean (w ∷ ws)
    → split_history (join separator (w ∷ ws)) ≡ w ∷ ws
split_history-join w [] (h, hs) = split_history_of_IsClean w h
split_history-join w (v ∷ ws) (h, hs) =
    ap split_history (append_assoc w separator (join separator (v ∷ ws)))
    ∙ split_history-append w (join separator (v ∷ ws)) h
    ∙ ap (w ∷◌) (split_history-join v ws hs)

listed-append :
    (q : JsString) (ws vs : List JsString) → listed q (ws ++ vs) ≡ (listed q ws || listed q vs)
listed-append q [] vs = refl
listed-append q (w ∷ ws) vs = ground (arith, listed-append q ws vs)

-- No entry stands twice.
abbrev pub IsDistinct : List JsString → Type 0
IsDistinct [] = Unit
IsDistinct (w ∷ ws) = (listed w ws ≡ false) × IsDistinct ws

listed-ne : (w q : JsString) (ws : List JsString) → listed q (w ∷ ws) ≡ false → str_eq q w ≡ false
listed-ne w q ws h = ground (arith, str_eq_iff w q, str_eq_iff q w)

IsDistinct-append :
    (q : JsString) (ws : List JsString)
    → IsDistinct ws
    → listed q ws ≡ false
    → IsDistinct (ws ++ q ∷ [])
IsDistinct-append q [] d h = (refl, tt)
IsDistinct-append q (w ∷ ws) (p, d) h = (
  rw (listed-append w ws (q ∷ []), p, listed-ne w q ws h) refl,
  IsDistinct-append q ws d (ground arith),
)

pub shifted-IsDistinct : (ws : List JsString) → IsDistinct ws → IsDistinct (shifted ws)
shifted-IsDistinct [] d = tt
shifted-IsDistinct (w ∷ ws) d = elim (Bool-cases (leb 6 (length (w ∷ ws)))) [
  | inl e ↦ rw e d.1
  | inr e ↦ rw e d
]

shifted-listed :
    (q : JsString) (ws : List JsString) → listed q ws ≡ false → listed q (shifted ws) ≡ false
shifted-listed q [] h = refl
shifted-listed q (w ∷ ws) h = elim (Bool-cases (leb 6 (length (w ∷ ws)))) [
  | inl e ↦ rw e (ground arith)
  | inr e ↦ rw e h
]

length-shifted : (ws : List JsString) → length ws ≤ 6 → length (shifted ws) ≤ 5
length-shifted [] h = omega arith
length-shifted (w ∷ ws) h = ground arith

-- The entries are distinct and at most six.
pub record IsHistory (ws : List JsString) : Type 0 where
  pub distinct : IsDistinct ws
  pub bounded : length ws ≤ 6

add_entry-IsHistory :
    (q : JsString) (ws : List JsString)
    → IsHistory ws
    → IsHistory (add_entry q ws) × (listed q (add_entry q ws) ≡ true)
unfolding add_entry
add_entry-IsHistory q ws h = elim (Bool-cases (listed q ws)) [
  | inl e ↦ rw e (h, e)
  | inr e ↦ rw e (
    record {
      distinct =
          IsDistinct-append q (shifted ws) (shifted-IsDistinct ws h.distinct)
            (shifted-listed q ws e);
      bounded = omega (arith, length-append (shifted ws) (q ∷ []), length-shifted ws h.bounded);
    },
    rw (listed-append q (shifted ws) (q ∷ []), shifted-listed q ws e, str_eq_refl q) refl,
  )
]

shifted-IsClean :
    (w : JsString) (ws : List JsString) → All IsClean (w ∷ ws) → All IsClean (shifted (w ∷ ws))
shifted-IsClean w ws h = elim (Bool-cases (leb 6 (length (w ∷ ws)))) [
  | inl e ↦ rw e h.1
  | inr e ↦ rw e h
]

split_history-join_append :
    (ws : List JsString) (q : JsString)
    → All IsClean (ws ++ q ∷ [])
    → split_history (join separator (ws ++ q ∷ [])) ≡ ws ++ q ∷ []
split_history-join_append [] q h = split_history-join q [] h
split_history-join_append (w ∷ ws) q h = split_history-join w (ws ++ q ∷ []) h

-- On the text that stores clean entries `add_history` does what `add_entry` does on the list.
pub split_history-add_history :
    (q w : JsString) (ws : List JsString)
    → All IsClean (w ∷ ws)
    → IsClean q
    → split_history (add_history q (join separator (w ∷ ws))) ≡ add_entry q (w ∷ ws)
unfolding add_history add_entry
split_history-add_history q w ws h hq = elim (Bool-cases (listed q (w ∷ ws))) [
  | inl e ↦ rw (add_history, split_history-join w ws h, e) (split_history-join w ws h)
  | inr e ↦
      rw (add_history, split_history-join w ws h, e)
        (split_history-join_append (shifted (w ∷ ws)) q
          (All-append IsClean (shifted (w ∷ ws)) (q ∷ []) (shifted-IsClean w ws h) (hq, tt)))
]

-- On the text that stores clean entries, distinct and at most six, adding a clean query leaves a
-- text that is read back as distinct entries, at most six, and the query is among them.
pub add_history-IsHistory :
    (q w : JsString) (ws : List JsString)
    → All IsClean (w ∷ ws)
    → IsClean q
    → IsHistory (w ∷ ws)
    → IsHistory (split_history (add_history q (join separator (w ∷ ws))))
      × (listed q (split_history (add_history q (join separator (w ∷ ws)))) ≡ true)
add_history-IsHistory q w ws h hq k =
    rw (split_history-add_history q w ws h hq) (add_entry-IsHistory q (w ∷ ws) k)

-- A query that ends in `:` moves its last character to the entry behind it when it is read back.
split_history-colon :
    (w v : JsString)
    → IsClean w
    → split_history (join separator ((w ++ codes ":") ∷ v ∷ [])) ≡ w ∷ split_history (b':' ∷ v)
split_history-colon w v h =
    ap split_history
      (append_assoc (w ++ codes ":") separator v ∙ append_assoc w (codes ":") (separator ++ v))
    ∙ split_history-append w (b':' ∷ v) h
