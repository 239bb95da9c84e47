-- ===== src/Backend/Net/Laws.antt =====
-- Addresses and their numbers, and what a range consists of.
use yulong.Prelude.{
  ℕ, zero, suc, ◌+◌, ◌*◌, ◌/◌, ◌%◌, ◌^◌, ◌<◌, ◌≡◌, refl, ap, ◌∙◌, inl, inr, true, false, List, [],
  ◌∷◌, Option, none, some, leb, ltb, if◌then◌else◌, arith, Bool-cases, get_elem?,
}
use mathlib.Core.Option.{map}
use yulong.Text.{JsString, split_char, to_string}
use yulong.Text.Laws.{IsPlain, split_char-join, to_string-IsPlain}
use yulong.Backend.Net.{
  Net, dotted, IsDocumented, int2ip, ip2int, between_loop, between_numbers, between_ip,
}

octets :
    (n : ℕ)
    → n < 2 ^ 32
    → n / 2 ^ 24 % 2 ^ 8 * 2 ^ 24
        + n / 2 ^ 16 % 2 ^ 8 * 2 ^ 16
        + n / 2 ^ 8 % 2 ^ 8 * 2 ^ 8
        + n % 2 ^ 8
      ≡ n
octets n h = omega arith

-- The address of a number below 2 ^ 32.
abbrev pub address : ℕ → JsString
address n = dotted (n / 2 ^ 24 % 2 ^ 8) (n / 2 ^ 16 % 2 ^ 8) (n / 2 ^ 8 % 2 ^ 8) (n % 2 ^ 8)

-- The element of a list at a place.
abbrev pub at : ℕ → List JsString → Option JsString
at i ips = get_elem? ips i

-- The number's address, within the range up to `b`.
abbrev in_range : ℕ → ℕ → Option JsString
in_range b n = if leb n b then some (address n) else none

dot-IsPlain : (n : ℕ) → IsPlain b'.' (to_string n)
dot-IsPlain n = to_string-IsPlain b'.' n refl

split_char-dotted :
    (a b c d : ℕ)
    → split_char b'.' (dotted a b c d) ≡ to_string a ∷ to_string b ∷ to_string c ∷ to_string d ∷ []
split_char-dotted a b c d =
    split_char-join b'.' (to_string a) (to_string b ∷ to_string c ∷ to_string d ∷ [])
      (dot-IsPlain a, (dot-IsPlain b, (dot-IsPlain c, (dot-IsPlain d, tt))))

module _ {Ip : Type 0} (net : Net Ip) (doc : IsDocumented net) where
  ip2int-ipv4 :
      (a b c d : ℕ)
      → a < 256
      → b < 256
      → c < 256
      → d < 256
      → ip2int net (net.ipv4 a b c d) ≡ some (a * 2 ^ 24 + b * 2 ^ 16 + c * 2 ^ 8 + d)
  unfolding ip2int
  ip2int-ipv4 a b c d ha hb hc hd =
      rw
        (
          doc.text-ipv4 a b c d ha hb hc hd,
          split_char-dotted a b c d,
          doc.atoi-to_string a ha,
          doc.atoi-to_string b hb,
          doc.atoi-to_string c hc,
          doc.atoi-to_string d hd,
        )
        refl

  -- The number of the address that Int2IP makes of a number below 2 ^ 32 is that number, where Go's
  -- packages write and read addresses as documented.
  pub ip2int-int2ip : (n : ℕ) → n < 2 ^ 32 → ip2int net (int2ip net n) ≡ some n
  unfolding int2ip
  ip2int-int2ip n h =
      ip2int-ipv4 (n / 2 ^ 24 % 2 ^ 8) (n / 2 ^ 16 % 2 ^ 8) (n / 2 ^ 8 % 2 ^ 8) (n % 2 ^ 8)
        (omega arith) (omega arith) (omega arith) (omega arith)
      ∙ ap some (octets n h)

  text-int2ip : (n : ℕ) → net.to_text (int2ip net n) ≡ address n
  unfolding int2ip
  text-int2ip n =
      doc.text-ipv4 (n / 2 ^ 24 % 2 ^ 8) (n / 2 ^ 16 % 2 ^ 8) (n / 2 ^ 8 % 2 ^ 8) (n % 2 ^ 8)
        (omega arith) (omega arith) (omega arith) (omega arith)

  parse_ip-address : (n : ℕ) → net.parse_ip (address n) ≡ int2ip net n
  unfolding int2ip
  parse_ip-address n =
      doc.parse_ip-dotted (n / 2 ^ 24 % 2 ^ 8) (n / 2 ^ 16 % 2 ^ 8) (n / 2 ^ 8 % 2 ^ 8) (n % 2 ^ 8)
        (omega arith) (omega arith) (omega arith) (omega arith)

  ip2int-address : (n : ℕ) → n < 2 ^ 32 → ip2int net (net.parse_ip (address n)) ≡ some n
  ip2int-address n h = ap (ip2int net) (parse_ip-address n) ∙ ip2int-int2ip n h

  get_elem?-between_loop :
      (f a b i : ℕ) → b < a + f → get_elem? (between_loop net f a b) i ≡ in_range b (a + i)
  unfolding between_loop
  get_elem?-between_loop zero a b i h =
      let off : leb (a + i) b ≡ false = ground arith in rw off refl
  get_elem?-between_loop (suc f) a b zero h = elim (Bool-cases (leb a b)) [
    | inl e ↦
        let here : some (address a) ≡ in_range b a = rw e refl in
        let first : a ≡ a + 0 = omega arith in
        rw e (ap some (text-int2ip a) ∙ here ∙ ap (in_range b) first)
    | inr e ↦ let off : leb (a + 0) b ≡ false = ground arith in rw (e, off) refl
  ]
  get_elem?-between_loop (suc f) a b (suc i) h = elim (Bool-cases (leb a b)) [
    | inl e ↦
        let next : get_elem? (between_loop net f (a + 1) b) i ≡ in_range b (a + 1 + i) =
          get_elem?-between_loop f (a + 1) b i (omega arith) in
        let moved : a + 1 + i ≡ a + suc i = omega arith in rw e (next ∙ ap (in_range b) moved)
    | inr e ↦ let off : leb (a + suc i) b ≡ false = ground arith in rw (e, off) refl
  ]

  -- Between the texts of two numbers below 2 ^ 32, the smaller first, BetweenIP gives the addresses
  -- of all numbers from the one to the other, in order, and no more, where Go's packages write and
  -- read addresses as documented.
  pub between_ip-address :
      (a b i : ℕ)
      → a < b
      → b < 2 ^ 32
      → map (at i) (between_ip net (address a) (address b))
        ≡ some (if leb (a + i) b then some (address (a + i)) else none)
  unfolding between_ip
  between_ip-address a b i h k =
      let less : ltb a b ≡ true = ground arith in
      let bound : a < 2 ^ 32 = omega arith in
      ap (λ m. map (at i) (between_numbers net m (ip2int net (net.parse_ip (address b)))))
        (ip2int-address a bound)
      ∙ ap (λ m. map (at i) (between_numbers net (some a) m)) (ip2int-address b k)
      ∙ rw less (ap some (get_elem?-between_loop (suc b) a b i (omega arith)))
