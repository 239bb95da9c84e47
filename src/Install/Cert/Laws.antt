-- ===== src/Install/Cert/Laws.antt =====
-- The test decides the language of the regular expression.
use yulong.Prelude.{
  ℕ, ◌≡◌, ◌↔◌, refl, sym, ap, ◌∙◌, inl, inr, Bool, true, false, ◌&&◌, ◌||◌, [], ◌∷◌, ◌++◌, some,
  ◌==◌, arith, All, All-append, Bool-cases, Option-cases, ==_iff, append-nil,
}
use yulong.Text.{JsString, strip_prefix}
use yulong.Text.Laws.{strip_prefix-append, strip_prefix-eq}
use yulong.Install.Cert.{
  is_break, is_plain, begin_line, end_line, starts_with, ends_body, has_body, test_cert,
}

-- A nonempty text of characters that pass a test: `[…]+`.
abbrev pub Some : (ℕ → Bool) → JsString → Type 0
Some test [] = ⊥
Some test (c ∷ s) = All (λ d. test d ≡ true) (c ∷ s)

-- `([\n\r]+[^-]+)+`
pub data Groups : JsString → Type 0 where
  last : {s : JsString} (a b : JsString) → s ≡ a ++ b → Some is_break a → Some is_plain b → Groups s
  more :
      {s : JsString} (a b t : JsString)
      → s ≡ a ++ (b ++ t)
      → Some is_break a
      → Some is_plain b
      → Groups t
      → Groups s

-- What the whole expression matches at the start of a text.
pub record Matches (cert : JsString) : Type 0 where
  pub body : JsString
  pub rest : JsString
  pub groups : Groups body
  pub split : cert ≡ begin_line ++ (body ++ 10 ∷ (end_line ++ rest))

Plain : JsString → Type 0
Plain = All (λ d. is_plain d ≡ true)

break-plain : (c : ℕ) → is_break c ≡ true → is_plain c ≡ true
break-plain c h = ground arith

breaks-Plain : (s : JsString) → All (λ d. is_break d ≡ true) s → Plain s
unfolding Plain
breaks-Plain [] h = tt
breaks-Plain (c ∷ s) (p, h) = (break-plain c p, breaks-Plain s h)

-- The groups are a line break, a character that is no dash, and text without a dash.
record Shape (s : JsString) : Type 0 where
  first : ℕ
  second : ℕ
  tail : JsString
  shown : s ≡ first ∷ second ∷ tail
  starts : is_break first ≡ true
  follows : is_plain second ≡ true
  plain : Plain tail

split_front :
    (a b t : JsString) {s : JsString}
    → s ≡ a ++ (b ++ t)
    → Some is_break a
    → Some is_plain b
    → Plain t
    → Shape s
unfolding Plain
split_front [] b t e h k p = absurd h
split_front (x ∷ a) [] t e h k p = absurd k
split_front (x ∷ []) (y ∷ b) t e h k p = record {
  first = x;
  second = y;
  tail = b ++ t;
  shown = e;
  starts = h.0;
  follows = k.0;
  plain = All-append (λ d. is_plain d ≡ true) b t k.1 p;
}
split_front (x ∷ y ∷ a) (z ∷ b) t e h k p = record {
  first = x;
  second = y;
  tail = a ++ (z ∷ b ++ t);
  shown = e;
  starts = h.0;
  follows = break-plain y h.1.0;
  plain =
      All-append (λ d. is_plain d ≡ true) a (z ∷ b ++ t) (breaks-Plain a h.1.1)
        (All-append (λ d. is_plain d ≡ true) (z ∷ b) t k p);
}

Shape-Plain : {s : JsString} → Shape s → Plain s
unfolding Plain
Shape-Plain {s} h = rw (h.shown) ((break-plain h.first h.starts, (h.follows, h.plain)))

Groups-Shape : {s : JsString} → Groups s → Shape s
unfolding Plain
Groups-Shape (last a b e h k) =
    split_front a b [] (e ∙ ap (λ t. a ++ t) (sym (append-nil b))) h k tt
Groups-Shape (more a b t e h k g) = split_front a b t e h k (Shape-Plain (Groups-Shape g))

or_later : (a b c : Bool) → b ≡ true → c ≡ true → (a || b && c) ≡ true
or_later a b c h k = ground arith

later_of_or : (a b c : Bool) → a ≡ false → (a || b && c) ≡ true → (b ≡ true) × (c ≡ true)
later_of_or a b c h k = ground arith

both_of_and : (a b : Bool) → (a && b) ≡ true → (a ≡ true) × (b ≡ true)
both_of_and a b h = ground arith

ends_body_complete : (p rest : JsString) → Plain p → ends_body (p ++ 10 ∷ (end_line ++ rest)) ≡ true
unfolding ends_body starts_with Plain
ends_body_complete [] rest h = refl
ends_body_complete (c ∷ p) rest (k, h) =
    or_later (c == 10 && starts_with end_line (p ++ 10 ∷ (end_line ++ rest))) (is_plain c)
      (ends_body (p ++ 10 ∷ (end_line ++ rest))) k (ends_body_complete p rest h)

record Tail (s : JsString) : Type 0 where
  before : JsString
  after : JsString
  plain : Plain before
  shown : s ≡ before ++ 10 ∷ (end_line ++ after)

starts_with_sound : (p s : JsString) → starts_with p s ≡ true → (t : JsString) × (s ≡ p ++ t)
unfolding starts_with
starts_with_sound p s h = elim (Option-cases (strip_prefix p s)) [
  | inl e ↦ let h' : false ≡ true = rw (starts_with, e) at h in cc
  | inr (t, e) ↦ (t, strip_prefix-eq p s t e)
]

ends_body_sound : (s : JsString) → ends_body s ≡ true → Tail s
unfolding ends_body Plain
ends_body_sound [] h = cc
ends_body_sound (c ∷ s) h = elim (Bool-cases (c == 10 && starts_with end_line s)) [
  | inl here ↦
      let (at_break, starts) = both_of_and (c == 10) (starts_with end_line s) here in
      let (t, e) = starts_with_sound end_line s starts in
      let feed : c ≡ 10 = (==_iff c 10).0 at_break in
      record { before = []; after = t; plain = tt; shown = rw (feed, e) refl }
  | inr later ↦
      let (p, q) =
        later_of_or (c == 10 && starts_with end_line s) (is_plain c) (ends_body s) later h in
      let ih = ends_body_sound s q in
      record {
        before = c ∷ ih.before;
        after = ih.after;
        plain = (p, ih.plain);
        shown = ap (λ t. c ∷ t) ih.shown;
      }
]

has_body_sound :
    (s : JsString)
    → has_body s ≡ true
    → (body rest : JsString) × Groups body × (s ≡ body ++ 10 ∷ (end_line ++ rest))
unfolding has_body Plain
has_body_sound [] h = cc
has_body_sound (c ∷ []) h = cc
has_body_sound (c ∷ d ∷ s) h =
    let ih = ends_body_sound s (ground arith) in
    let starts : is_break c ≡ true = ground arith in
    let follows : is_plain d ≡ true = ground arith in
    (
      c ∷ d ∷ ih.before,
      ih.after,
      last (c ∷ []) (d ∷ ih.before) refl (starts, tt) (follows, ih.plain),
      ap (λ t. c ∷ d ∷ t) ih.shown,
    )

has_body_complete :
    (body rest : JsString) → Groups body → has_body (body ++ 10 ∷ (end_line ++ rest)) ≡ true
unfolding has_body
has_body_complete body rest g =
    let h = Groups-Shape g in
    rw (h.shown, h.starts, h.follows) (ends_body_complete h.tail rest h.plain)

-- The test of the certificate says yes just to the texts that the regular expression matches: the
-- first line, one or more groups of line breaks and other text without a dash, and, behind a line
-- feed, the last line.
pub test_cert_iff : (cert : JsString) → (test_cert cert ≡ true) ↔ Matches cert
unfolding test_cert
test_cert_iff cert = (
  λ h. elim (Option-cases (strip_prefix begin_line cert)) [
    | inl e ↦ let h' : false ≡ true = rw (test_cert, e) at h in cc
    | inr (s, e) ↦
        let (body, rest, g, shown) = has_body_sound s (rw (test_cert, e) at h) in
        record {
          body = body;
          rest = rest;
          groups = g;
          split = strip_prefix-eq begin_line cert s e ∙ ap (λ t. begin_line ++ t) shown;
        }
  ],
  λ m.
      let e : strip_prefix begin_line cert ≡ some (m.body ++ 10 ∷ (end_line ++ m.rest)) =
        ap (strip_prefix begin_line) m.split
        ∙ strip_prefix-append begin_line (m.body ++ 10 ∷ (end_line ++ m.rest)) in
      rw (test_cert, e) (has_body_complete m.body m.rest m.groups),
)
