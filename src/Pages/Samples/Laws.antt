-- ===== src/Pages/Samples/Laws.antt =====
-- Which samples a type of events has.
use yulong.Prelude.{ℕ, ◌≡◌, true, false, arith, All}
use yulong.Text.{JsString}
use yulong.Pages.Samples.{is_word, is_end}

-- A word of `\w+`.
abbrev pub IsWord : JsString → Type 0
IsWord = All (λ c. is_word c ≡ true)

word_end : (c : ℕ) → is_word c ≡ true → is_end c ≡ false
word_end c h = ground arith
