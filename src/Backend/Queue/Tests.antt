-- ===== src/Backend/Queue/Tests.antt =====
-- Runs of the queue of a task and of ranges of addresses, and instances of their theorems.
use mathlib.Core.Option.{map}
use yulong.Prelude.{
  Bool-cases, ap, sym, ◌∙◌, ℕ, zero, suc, ◌+◌, ◌-◌, ◌*◌, ◌≡◌, ◌<◌, refl, inl, inr, Bool, true, ◌&&◌,
  List, [], ◌∷◌, ◌++◌, Option, none, some, arith, ◌==◌, leb, if◌then◌else◌,
}
use yulong.Text.{JsString, codes, to_string, split_char}
use yulong.Backend.Access.{string_in_slice}
use yulong.Backend.Net.{Net, dotted, IsDocumented, int2ip, ip2int, between_ip}
use yulong.Backend.Net.Laws.{address, at, ip2int-int2ip, between_ip-address}
use yulong.Backend.Queue.{Task, Surroundings, entry, post_task, task_added}
use yulong.Backend.Queue.Laws.{entries, post_task_clients, post_task-repeated}

-- Addresses as their texts.
abbrev number_from : ℕ → JsString → ℕ
number_from n [] = n
number_from n (c ∷ s) = number_from (n * 10 + (c - b'0')) s

abbrev texts : Net JsString
texts = record {
  ipv4 = λ a b c d. dotted a b c d;
  parse_ip = λ s. s;
  to_text = λ s. s;
  atoi = number_from 0;
}

abbrev reads_back : ℕ → Bool
reads_back zero = true
reads_back (suc n) = number_from 0 (to_string n) == n && reads_back n

reads_back_256 : reads_back 256 ≡ true
unfolding to_string
reads_back_256 = refl

reads_back-number_from : (k n : ℕ) → reads_back k ≡ true → n < k → number_from 0 (to_string n) ≡ n
reads_back-number_from zero n h l = ground arith
reads_back-number_from (suc k) n h l = elim (Bool-cases (k == n)) [
  | inl e ↦
      let same : k ≡ n = ground arith in
      let here : (number_from 0 (to_string k) == k) ≡ true = ground arith in
      let read : number_from 0 (to_string k) ≡ k = ground arith in
      ap (λ m. number_from 0 (to_string m)) (sym same) ∙ read ∙ same
  | inr e ↦
      let rest : reads_back k ≡ true = ground arith in
      let less : n < k = ground arith in reads_back-number_from k n rest less
]

texts-IsDocumented : IsDocumented texts
texts-IsDocumented = record {
  text-ipv4 = λ a b c d ha hb hc hd. refl;
  parse_ip-dotted = λ a b c d ha hb hc hd. refl;
  atoi-to_string = λ n h. reads_back-number_from 256 n reads_back_256 h;
}

-- 192.168.1.1
ip2int-int2ip_example : ip2int texts (int2ip texts 3232235777) ≡ some 3232235777
ip2int-int2ip_example = ip2int-int2ip texts texts-IsDocumented 3232235777 (omega arith)

-- From 10.0.0.254 to 10.0.1.1, the third address.
between_ip-address_example :
    map (at 2) (between_ip texts (address 167772414) (address 167772417))
    ≡ some (if leb (167772414 + 2) 167772417 then some (address (167772414 + 2)) else none)
between_ip-address_example =
    between_ip-address texts texts-IsDocumented 167772414 167772417 2 (omega arith) (omega arith)

-- A range of one address is empty.
abbrev one_address : Option (List JsString)
one_address = between_ip texts (codes "10.0.0.1") (codes "10.0.0.1")

nothing_between : one_address ≡ some []
unfolding between_ip ip2int split_char
nothing_between = refl

-- A host's name with a dash is taken for a range, and ends in a panic.
no_range : between_ip texts (codes "web") (codes "01") ≡ none
unfolding between_ip ip2int split_char
no_range = refl

abbrev sur : Surroundings
sur = record {
  id = codes "t1";
  inserts_task = true;
  inserts = λ e. true;
  all_ips = codes "10.0.0.1" ∷ codes "10.0.0.2" ∷ [];
  windows_ips = codes "10.0.0.2" ∷ [];
  linux_ips = codes "10.0.0.1" ∷ [];
}

abbrev task_for : List JsString → Task
task_for hosts = record { host_list = hosts; kind = codes "quit"; command = [] }

post_task_clients_example :
    post_task texts sur (some (task_for (codes "10.0.0.9" ∷ codes "all" ∷ []))) [] ≡ (
      some task_added,
      [] ++ entries texts sur (task_for (codes "10.0.0.9" ∷ codes "all" ∷ [])) sur.all_ips,
    )
post_task_clients_example =
    post_task_clients texts sur (task_for (codes "10.0.0.9" ∷ codes "all" ∷ [])) [] refl
      (unfold string_in_slice in refl) (unfold string_in_slice in (refl, (refl, tt)))
      (refl, (refl, tt)) (unfold string_in_slice in refl) (unfold string_in_slice in refl)

-- 10.0.0.1 is typed twice, and 10.0.0.3 is lost.
abbrev repeated_hosts : List JsString
repeated_hosts = codes "10.0.0.1" ∷ codes "10.0.0.1" ∷ codes "10.0.0.3" ∷ []

post_task-repeated_example :
    post_task texts sur (some (task_for repeated_hosts)) []
    ≡ (some task_added, [] ++ entries texts sur (task_for repeated_hosts) (codes "10.0.0.1" ∷ []))
post_task-repeated_example =
    post_task-repeated texts sur (task_for repeated_hosts) (codes "10.0.0.1" ∷ [])
      (codes "10.0.0.3" ∷ []) (codes "10.0.0.1") [] refl (unfold string_in_slice in refl)
      (unfold string_in_slice in (refl, tt)) (refl, tt) (unfold string_in_slice in refl)

-- A host that a range holds already is queued twice.
abbrev ranged : Task
ranged = task_for (codes "0.0.0.1-0.0.0.2" ∷ codes "0.0.0.2" ∷ [])

queued_twice :
    (post_task texts sur (some ranged) []).1
    ≡ entry texts sur ranged (codes "0.0.0.1")
      ∷ entry texts sur ranged (codes "0.0.0.2")
      ∷ entry texts sur ranged (codes "0.0.0.2")
      ∷ []
unfolding post_task to_string
queued_twice = refl
