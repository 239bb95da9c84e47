-- ===== src/Regexp/Laws.antt =====
-- What the two regular expressions mean.
use mathlib.Core.Path.{subst}
use yulong.Prelude.{
  ℕ, ◌≡◌, ◌≢◌, refl, ap, Bool, true, false, ◌||◌, [], ◌∷◌, ◌++◌, Option, none, some, arith, ◌==◌,
  ◌↔◌, if◌then◌else◌, All, Bool-cases, inl, inr,
}
use yulong.Text.{JsString, codes}
use yulong.Regexp.{is_escaped, escape_regexp, string2regexp, is_digit_or_dot, run_of, first_run}

-- The syntax characters of a regular expression (ECMAScript, SyntaxCharacter).
is_syntax : ℕ → Bool
is_syntax c =
    c == b'^'
    || c == b'$'
    || c == 92
    || c == b'.'
    || c == b'*'
    || c == b'+'
    || c == b'?'
    || c == b'('
    || c == b')'
    || c == b'['
    || c == b']'
    || c == b'{'
    || c == b'}'
    || c == b'|'

-- The character that `\c` stands for, where it is an identity escape of punctuation.
is_identity_escape : ℕ → Bool
is_identity_escape c = is_syntax c || c == b'/' || c == b'-'

abbrev add_first : ℕ → Option JsString → Option JsString
add_first c none = none
add_first c (some s) = some (c ∷ s)

-- The text that a pattern of plain characters and identity escapes matches up to the final `$`;
-- `none` for any other pattern.
literal_body : JsString → Option JsString
literal_body [] = none
literal_body (c ∷ []) = if c == b'$' then some [] else none
literal_body (c ∷ d ∷ p) =
    let escaped = add_first d (literal_body p) in
    let plain = add_first c (literal_body (d ∷ p)) in
    if c == 92
    then if is_identity_escape d then escaped else none
    else if is_syntax c
    then none
    else plain

-- The one text that `^…$` matches.
pub exact_literal : JsString → Option JsString
exact_literal [] = none
exact_literal (c ∷ p) = if c == b'^' then literal_body p else none

is_identity_escape_of_escaped : (c : ℕ) → is_escaped c ≡ true → is_identity_escape c ≡ true
unfolding is_identity_escape is_syntax is_escaped
is_identity_escape_of_escaped c h = ground arith

not_syntax : (c : ℕ) → is_escaped c ≡ false → (is_syntax c ≡ false) × ((c == 92) ≡ false)
unfolding is_syntax is_escaped
not_syntax c h = ground arith

literal_body-escaped :
    (c : ℕ) (p : JsString)
    → is_escaped c ≡ true
    → literal_body (92 ∷ c ∷ p) ≡ add_first c (literal_body p)
unfolding literal_body
literal_body-escaped c p h = rw (is_identity_escape_of_escaped c h) refl

literal_body-plain :
    (c : ℕ) (q : JsString)
    → is_escaped c ≡ false
    → literal_body (c ∷ (q ++ codes "$")) ≡ add_first c (literal_body (q ++ codes "$"))
unfolding literal_body
literal_body-plain c [] h = let (a, b) = not_syntax c h in rw (b, a) refl
literal_body-plain c (d ∷ q) h = let (a, b) = not_syntax c h in rw (b, a) refl

literal_body-escape : (s : JsString) → literal_body (escape_regexp s ++ codes "$") ≡ some s
unfolding escape_regexp
literal_body-escape [] = unfold literal_body in refl
literal_body-escape (c ∷ s) = elim (Bool-cases (is_escaped c)) [
  | inl e ↦
      rw (e, literal_body-escaped c (escape_regexp s ++ codes "$") e, literal_body-escape s) refl
  | inr e ↦ rw (e, literal_body-plain c (escape_regexp s) e, literal_body-escape s) refl
]

-- The pattern of `string2regexp s` matches `s` and nothing else.
pub exact_literal-string2regexp : (s : JsString) → exact_literal (string2regexp s) ≡ some s
unfolding exact_literal string2regexp
exact_literal-string2regexp s = literal_body-escape s

-- Nothing, or a character that is neither digit nor dot.
abbrev Stops : JsString → Type 0
Stops [] = Unit
Stops (c ∷ s) = is_digit_or_dot c ≡ false

-- A nonempty run of digits and dots behind a text that has none, not followed by one.
pub record IsFirstRun (s run : JsString) : Type 0 where
  pub before : JsString
  pub after : JsString
  pub splits : s ≡ before ++ (run ++ after)
  pub none_before : All (λ c. is_digit_or_dot c ≡ false) before
  pub of_run : All (λ c. is_digit_or_dot c ≡ true) run
  pub nonempty : run ≢ []
  pub stops : Stops after

-- What `run_of` leaves.
past_run : JsString → JsString
past_run [] = []
past_run (c ∷ s) = let rest = past_run s in if is_digit_or_dot c then rest else c ∷ s

run_of-split :
    (s : JsString)
    → (s ≡ run_of s ++ past_run s)
      × All (λ c. is_digit_or_dot c ≡ true) (run_of s)
      × Stops (past_run s)
unfolding run_of past_run
run_of-split [] = (refl, tt, tt)
run_of-split (c ∷ s) = elim (Bool-cases (is_digit_or_dot c)) [
  | inl e ↦ let (eq, all, stop) = run_of-split s in rw e (ap (c ∷◌) eq, (e, all), stop)
  | inr e ↦ rw e (refl, tt, e)
]

same_run : {a b : JsString} → some a ≡ some b → a ≡ b
same_run h = cc

first_run_lem :
    (s : JsString)
    → ((run : JsString) → first_run s ≡ some run → IsFirstRun s run)
      × ((first_run s ≡ none) ↔ All (λ c. is_digit_or_dot c ≡ false) s)
unfolding first_run
first_run_lem [] = (λ run h. cc, (λ h. tt, λ h. refl))
first_run_lem (c ∷ s) = elim (Bool-cases (is_digit_or_dot c)) [
  | inl e ↦
      let (eq, all, stop) = run_of-split s in
      rw e (
        λ run h. subst (IsFirstRun (c ∷ s)) (same_run h) (record {
          before = [];
          after = past_run s;
          splits = ap (c ∷◌) eq;
          none_before = tt;
          of_run = (e, all);
          nonempty = λ q. cc;
          stops = stop;
        }),
        (λ h. cc, λ h. cc),
      )
  | inr e ↦
      let (found, missing) = first_run_lem s in
      rw e (
        λ run h.
            let r = found run h in
            record {
              before = c ∷ r.before;
              after = r.after;
              splits = ap (c ∷◌) r.splits;
              none_before = (e, r.none_before);
              of_run = r.of_run;
              nonempty = r.nonempty;
              stops = r.stops;
            },
        (λ h. (refl, missing.0 h), λ h. missing.1 h.1),
      )
]

-- What `/[\d\.]+/` finds is the first run of digits and dots, whole.
pub first_run-IsFirstRun : (s run : JsString) → first_run s ≡ some run → IsFirstRun s run
first_run-IsFirstRun s run h = (first_run_lem s).0 run h

-- It finds nothing exactly where the text has neither digit nor dot.
pub first_run-none : (s : JsString) → (first_run s ≡ none) ↔ All (λ c. is_digit_or_dot c ≡ false) s
first_run-none s = (first_run_lem s).1
