-- ===== src/Uri/Laws.antt =====
-- What an encoded text cannot hold.
use yulong.Prelude.{
  ℕ, ◌+◌, ◌/◌, ◌%◌, ◌<◌, ◌≡◌, ◌≢◌, true, false, ◌||◌, [], ◌∷◌, ◌++◌, Option, none, some, ltb, arith,
  All, All-append, Bool-cases, inl, inr,
}
use yulong.Text.{JsString}
use yulong.Url.{is_delim, is_line_terminator}
use yulong.Url.Query.{IsValue, HasNoDollar}
use yulong.Uri.{
  is_unreserved, hex_digit, percent, encode_point, is_high, is_low, pair_point, before_rest,
  encode_uri_component,
}

-- A character that ends no value and is no directive.
pub record IsSafe (c : ℕ) : Type 0 where
  pub not_delim : is_delim c ≡ false
  pub not_line : is_line_terminator c ≡ false
  pub not_dollar : c ≢ b'$'
  pub not_hash : c ≢ b'#'

unreserved-IsSafe : (c : ℕ) → is_unreserved c ≡ true → IsSafe c
unfolding is_unreserved
unreserved-IsSafe c h = ground arith

hex_digit-IsSafe : (n : ℕ) → n < 16 → IsSafe (hex_digit n)
unfolding hex_digit
hex_digit-IsSafe n h = ground arith

percent-IsSafe : (byte : ℕ) → All IsSafe (percent byte)
unfolding percent
percent-IsSafe byte = (
  ground arith,
  (
    hex_digit-IsSafe (byte / 16 % 16) (omega arith),
    (hex_digit-IsSafe (byte % 16) (omega arith), tt),
  ),
)

both : (s t : JsString) → All IsSafe s → All IsSafe t → All IsSafe (s ++ t)
both = All-append IsSafe

two : (a b : ℕ) → All IsSafe (percent a ++ percent b)
two a b = both (percent a) (percent b) (percent-IsSafe a) (percent-IsSafe b)

three : (a b c : ℕ) → All IsSafe (percent a ++ (percent b ++ percent c))
three a b c = both (percent a) (percent b ++ percent c) (percent-IsSafe a) (two b c)

four : (a b c d : ℕ) → All IsSafe (percent a ++ (percent b ++ (percent c ++ percent d)))
four a b c d =
    both (percent a) (percent b ++ (percent c ++ percent d)) (percent-IsSafe a) (three b c d)

encode_point-IsSafe : (p : ℕ) → All IsSafe (encode_point p)
unfolding encode_point
encode_point-IsSafe p = elim (Bool-cases (ltb p 0x80)) [
  | inl a ↦ rw (encode_point, a) (percent-IsSafe p)
  | inr a ↦ elim (Bool-cases (ltb p 0x800)) [
    | inl b ↦ rw (encode_point, a, b) (two (0xc0 + p / 64) (0x80 + p % 64))
    | inr b ↦ elim (Bool-cases (ltb p 0x10000)) [
      | inl d ↦
          rw (encode_point, a, b, d) (three (0xe0 + p / 4096) (0x80 + p / 64 % 64) (0x80 + p % 64))
      | inr d ↦
          rw (encode_point, a, b, d)
            (four (0xf0 + p / 262144) (0x80 + p / 4096 % 64) (0x80 + p / 64 % 64) (0x80 + p % 64))
    ]
  ]
]

-- Every character of a result is safe.
abbrev AllSafe : Option JsString → Type 0
AllSafe none = Unit
AllSafe (some s) = All IsSafe s

before_rest-AllSafe :
    (s : JsString) (o : Option JsString) → All IsSafe s → AllSafe o → AllSafe (before_rest s o)
before_rest-AllSafe s none h k = tt
before_rest-AllSafe s (some t) h k = both s t h k

encode-AllSafe : (s : JsString) → AllSafe (encode_uri_component s)
unfolding encode_uri_component
encode-AllSafe [] = tt
encode-AllSafe (c ∷ []) = elim (Bool-cases (is_unreserved c)) [
  | inl u ↦ rw u (unreserved-IsSafe c u, tt)
  | inr u ↦ elim (Bool-cases (is_high c || is_low c)) [
    | inl b ↦ rw (u, b) tt
    | inr b ↦ rw (u, b) (encode_point-IsSafe c)
  ]
]
encode-AllSafe (c ∷ d ∷ s) =
    let single = encode-AllSafe (d ∷ s) in
    let pair = encode-AllSafe s in
    elim (Bool-cases (is_unreserved c)) [
      | inl u ↦ rw u (
          before_rest-AllSafe (c ∷ []) (encode_uri_component (d ∷ s)) (unreserved-IsSafe c u, tt)
            single)
      | inr u ↦ elim (Bool-cases (is_low c)) [
        | inl l ↦ rw (u, l) tt
        | inr l ↦ elim (Bool-cases (is_high c)) [
          | inl h ↦ elim (Bool-cases (is_low d)) [
            | inl m ↦
                rw (u, l, h, m)
                  (before_rest-AllSafe (encode_point (pair_point c d)) (encode_uri_component s)
                    (encode_point-IsSafe (pair_point c d)) pair)
            | inr m ↦ rw (u, l, h, m) tt
          ]
          | inr h ↦
              rw (u, l, h)
                (before_rest-AllSafe (encode_point c) (encode_uri_component (d ∷ s))
                  (encode_point-IsSafe c) single)
        ]
      ]
    ]

-- An encoded text holds no delimiter, line break, `$` or `#`.
pub encode_uri_component-IsSafe : (s t : JsString) → encode_uri_component s ≡ some t → All IsSafe t
encode_uri_component-IsSafe s t h = rw h at (encode-AllSafe s)

pub IsSafe→HasNoDollar : (s : JsString) → All IsSafe s → HasNoDollar s
IsSafe→HasNoDollar [] h = tt
IsSafe→HasNoDollar (c ∷ s) (p, h) = (p.not_dollar, IsSafe→HasNoDollar s h)

pub IsSafe→IsValue : (s : JsString) → All IsSafe s → IsValue s
IsSafe→IsValue [] h = tt
IsSafe→IsValue (c ∷ s) (p, h) = ((p.not_delim, p.not_line), IsSafe→IsValue s h)
