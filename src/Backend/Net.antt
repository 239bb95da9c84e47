-- ===== src/Backend/Net.antt =====
-- Ranges of IP addresses (web/utils/net.go). Addresses, their text, and the numbers of texts are
-- Go's packages `net` and `strconv`.
pub mod Laws
use yulong.Prelude.{
  ℕ, zero, suc, ◌+◌, ◌-◌, ◌*◌, ◌/◌, ◌%◌, ◌^◌, ◌<◌, ◌≡◌, List, [], ◌∷◌, Option, none, some, leb, ltb,
  if◌then◌else◌,
}
use yulong.Text.{JsString, codes, join, split_char, to_string}

-- `net.IPv4`, `net.ParseIP`, whose nil is an address too, `IP.String`, and the number that
-- `strconv.Atoi` gives, 0 where there is an error.
pub record Net (Ip : Type 0) : Type 0 where
  pub ipv4 : ℕ → ℕ → ℕ → ℕ → Ip
  pub parse_ip : JsString → Ip
  pub to_text : Ip → JsString
  pub atoi : JsString → ℕ

-- The usual text of an address.
abbrev pub dotted : ℕ → ℕ → ℕ → ℕ → JsString
dotted a b c d = join (codes ".") (to_string a ∷ to_string b ∷ to_string c ∷ to_string d ∷ [])

-- Go's packages write addresses with dots, and read what they write.
pub record IsDocumented {Ip : Type 0} (net : Net Ip) : Type 0 where
  pub text-ipv4 :
      (a b c d : ℕ)
      → a < 256
      → b < 256
      → c < 256
      → d < 256
      → net.to_text (net.ipv4 a b c d) ≡ dotted a b c d
  pub parse_ip-dotted :
      (a b c d : ℕ)
      → a < 256
      → b < 256
      → c < 256
      → d < 256
      → net.parse_ip (dotted a b c d) ≡ net.ipv4 a b c d
  pub atoi-to_string : (n : ℕ) → n < 256 → net.atoi (to_string n) ≡ n

module _ {Ip : Type 0} (net : Net Ip) where
  -- `byte(ipnr & 0xFF)` and its like keep the last eight bits.
  unfoldable pub int2ip : ℕ → Ip
  int2ip ipnr =
      net.ipv4 (ipnr / 2 ^ 24 % 2 ^ 8) (ipnr / 2 ^ 16 % 2 ^ 8) (ipnr / 2 ^ 8 % 2 ^ 8) (ipnr % 2 ^ 8)

  -- The sum of the four parts, each below 256 in the text of an address; `none` is the panic where
  -- there are fewer, as in the text of nil and of most addresses of IPv6.
  abbrev pub sum_bits : List JsString → Option ℕ
  sum_bits (b0 ∷ b1 ∷ b2 ∷ b3 ∷ bits) =
      some (net.atoi b0 * 2 ^ 24 + net.atoi b1 * 2 ^ 16 + net.atoi b2 * 2 ^ 8 + net.atoi b3)
  sum_bits bits = none

  unfoldable pub ip2int : Ip → Option ℕ
  ip2int ipnr = sum_bits (split_char b'.' (net.to_text ipnr))

  -- The loop of `BetweenIP`; each round raises `ipint1`, so `suc ipint2` rounds are enough.
  unfoldable pub between_loop : ℕ → ℕ → ℕ → List JsString
  unfolding int2ip
  between_loop zero ipint1 ipint2 = []
  between_loop (suc fuel) ipint1 ipint2 =
      let rest = between_loop fuel (ipint1 + 1) ipint2 in
      if leb ipint1 ipint2 then net.to_text (int2ip ipint1) ∷ rest else []

  -- `BetweenIP` behind the two numbers.
  abbrev pub between_numbers : Option ℕ → Option ℕ → Option (List JsString)
  between_numbers none n = none
  between_numbers (some ipint1) none = none
  between_numbers (some ipint1) (some ipint2) =
      some (if ltb ipint1 ipint2 then between_loop (suc ipint2) ipint1 ipint2 else [])

  unfoldable pub between_ip : JsString → JsString → Option (List JsString)
  unfolding ip2int between_loop
  between_ip ipstr1 ipstr2 =
      between_numbers (ip2int (net.parse_ip ipstr1)) (ip2int (net.parse_ip ipstr2))
