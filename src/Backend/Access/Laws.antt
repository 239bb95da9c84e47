-- ===== src/Backend/Access/Laws.antt =====
-- Which requests pass.
use yulong.Prelude.{
  ℕ, ◌≡◌, ◌≢◌, refl, ap, ◌⊎◌, inl, inr, ◌↔◌, Bool, true, false, not, ◌&&◌, List, [], ◌∷◌, Option,
  none, some, arith, Option-cases,
}
use yulong.Backend.Access.Texts.{
  Ends, SomeOccurs, Listed, has_suffix_iff, find_sub_iff, string_in_slice-Listed,
  Listed-string_in_slice,
}
use yulong.Text.{JsString, codes, truthy, str_eq, split_char}
use yulong.Text.Laws.{str_eq_iff}
use yulong.Backend.Forms.{unmarshal}
use yulong.Backend.Access.{
  string_in_slice, find_sub, auth_uri_lst, http_url_lst, AppConfig, Request, passed, has_suffix,
  watch_mode_exempt, is_get, logged_in, is_guarded, popped, same_pass, check_csrf, check_two_factor,
  prepare,
}

-- Connectives of Booleans and of what they stand for.
and_iff :
    {P Q : Type 0} (a b : Bool) → (a ≡ true) ↔ P → (b ≡ true) ↔ Q → ((a && b) ≡ true) ↔ (P × Q)
and_iff true b (f, g) (h, k) = (λ e. (f refl, h e), λ x. k x.1)
and_iff false b (f, g) (h, k) = (λ e. ground arith, λ x. g x.0)

not_iff : {P : Type 0} (a : Bool) → (a ≡ true) ↔ P → (not a ≡ true) ↔ (¬ P)
not_iff true (f, g) = (λ e. ground arith, λ n. absurd (n (f refl)))
not_iff false (f, g) = (λ e x. ground (arith, g x), λ n. refl)

false_iff : {P : Type 0} (a : Bool) → (a ≡ true) ↔ P → (a ≡ false) ↔ (¬ P)
false_iff true (f, g) = (λ e. ground arith, λ n. absurd (n (f refl)))
false_iff false (f, g) = (λ e x. ground (arith, g x), λ n. refl)

either_iff : {P Q R S : Type 0} → P ↔ R → Q ↔ S → (P ⊎ Q) ↔ (R ⊎ S)
either_iff (f, g) (h, k) = (
  λ x. elim x [ inl p ↦ inl (f p) | inr q ↦ inr (h q) ],
  λ x. elim x [ inl p ↦ inl (g p) | inr q ↦ inr (k q) ],
)

both_iff : {P Q R S : Type 0} → P ↔ R → Q ↔ S → (P × Q) ↔ (R × S)
both_iff (f, g) (h, k) = (λ x. (f x.0, h x.1), λ x. (g x.0, k x.1))

truthy_iff : (s : JsString) → (truthy s ≡ false) ↔ (s ≡ [])
truthy_iff [] = (λ h. refl, λ h. refl)
truthy_iff (c ∷ s) = (λ h. ground arith, λ h. cc)

same_iff : {P : Type 0} → P ↔ P
same_iff = (λ p. p, λ p. p)

-- In learning mode a change of the white list needs no second factor.
abbrev pub IsExempt : AppConfig → Request → Type 0
IsExempt app r =
    Ends (codes "config") r.url × ((app.learn ≡ true) × ((unmarshal r.body).0.id ≡ app.white_id))

-- The requests that need it: all but reads, at one of the addresses with the second factor.
abbrev pub NeedsFactor : AppConfig → Request → Type 0
NeedsFactor app r =
    (¬ (r.method ≡ codes "GET"))
    × ((app.two_factor_auth ≡ true)
        × ((¬ IsExempt app r)
            × SomeOccurs (codes "/file" ∷ codes "/config" ∷ codes "/tasks" ∷ codes "/rules" ∷ [])
                r.url))

is_guarded_iff : (app : AppConfig) (r : Request) → (is_guarded app r ≡ true) ↔ NeedsFactor app r
unfolding is_guarded watch_mode_exempt
is_guarded_iff app r =
    and_iff (not (is_get r))
      (app.two_factor_auth
        && (not (watch_mode_exempt app r) && truthy (find_sub auth_uri_lst r.url)))
      (not_iff (is_get r) (str_eq_iff r.method (codes "GET")))
      (and_iff app.two_factor_auth
        (not (watch_mode_exempt app r) && truthy (find_sub auth_uri_lst r.url)) same_iff
        (and_iff (not (watch_mode_exempt app r)) (truthy (find_sub auth_uri_lst r.url))
          (not_iff (watch_mode_exempt app r) (
            and_iff (has_suffix r.url (codes "config"))
              (app.learn && str_eq (unmarshal r.body).0.id app.white_id)
              (has_suffix_iff r.url (codes "config"))
              (and_iff app.learn (str_eq (unmarshal r.body).0.id app.white_id) same_iff
                (str_eq_iff (unmarshal r.body).0.id app.white_id))))
          (find_sub_iff auth_uri_lst r.url (refl, (refl, (refl, (refl, tt)))))))

logged_in_iff :
    (app : AppConfig) (r : Request) → (logged_in app r ≡ true) ↔ (r.user ≡ some app.username)
logged_in_iff app r = elim (Option-cases r.user) [
  | inl e ↦ rw e (λ h. ground arith, λ h. cc)
  | inr (u, e) ↦
      rw e (λ h. ap some ((str_eq_iff u app.username).0 h), λ h. (str_eq_iff u app.username).1 cc)
]

-- The checks as the code has them.
abbrev Checks : ℕ → AppConfig → Request → List ℕ → Type 0
Checks serverside app r historys =
    ((truthy app.ylhostname ≡ false)
      ⊎ (string_in_slice r.host (split_char b',' app.ylhostname) ≡ true))
    × (((app.only_https ≡ false)
          ⊎ ((str_eq r.scheme (codes "https") ≡ true)
              ⊎ (truthy (find_sub http_url_lst r.url) ≡ true)))
        × (((app.dev_mode ≡ true) ⊎ (logged_in app r ≡ true))
            × (((is_guarded app r ≡ false)
                  ⊎ ((popped serverside historys ≢ serverside) × (r.pass ≡ some serverside)))
                × ((is_get r ≡ true)
                    ⊎ ((app.dev_mode ≡ true) ⊎ (str_eq r.headertoken r.cookietoken ≡ true))))))

check_csrf_iff :
    (app : AppConfig) (r : Request)
    → (check_csrf app r ≡ passed)
      ↔ ((is_get r ≡ true) ⊎ ((app.dev_mode ≡ true) ⊎ (str_eq r.headertoken r.cookietoken ≡ true)))
unfolding check_csrf
check_csrf_iff app r = ground arith

same_pass_iff : (n : ℕ) (o : Option ℕ) → (same_pass n o ≡ true) ↔ (o ≡ some n)
same_pass_iff n none = ground arith
same_pass_iff n (some m) = ground arith

check_two_factor_iff :
    (serverside : ℕ) (app : AppConfig) (r : Request) (historys : List ℕ)
    → (check_two_factor serverside app r historys ≡ passed) ↔ (
        ((popped serverside historys ≢ serverside) × (r.pass ≡ some serverside))
        × (check_csrf app r ≡ passed))
unfolding check_two_factor
check_two_factor_iff serverside app r historys = ground (arith, same_pass_iff serverside r.pass)

prepare-Checks :
    (serverside : ℕ) (app : AppConfig) (r : Request) (historys : List ℕ)
    → ((prepare serverside app r historys).0 ≡ passed) ↔ Checks serverside app r historys
unfolding prepare
prepare-Checks serverside app r historys =
    ground (arith, check_csrf_iff app r, check_two_factor_iff serverside app r historys)

-- What a request must fulfil: the host is an allowed one; the scheme is HTTPS, but for downloads;
-- the session is the operator's; the second factor is right and was not tried too often, where it is
-- needed; and the tokens agree, but for reads. Settings and development mode lift some of these.
abbrev pub MayPass : ℕ → AppConfig → Request → List ℕ → Type 0
MayPass serverside app r historys =
    ((app.ylhostname ≡ []) ⊎ Listed r.host (split_char b',' app.ylhostname))
    × (((app.only_https ≡ false)
          ⊎ ((r.scheme ≡ codes "https") ⊎ SomeOccurs (codes "/download" ∷ []) r.url))
        × (((app.dev_mode ≡ true) ⊎ (r.user ≡ some app.username))
            × (((¬ NeedsFactor app r)
                  ⊎ ((popped serverside historys ≢ serverside) × (r.pass ≡ some serverside)))
                × ((r.method ≡ codes "GET")
                    ⊎ ((app.dev_mode ≡ true) ⊎ (r.headertoken ≡ r.cookietoken))))))

Checks-MayPass :
    (serverside : ℕ) (app : AppConfig) (r : Request) (historys : List ℕ)
    → Checks serverside app r historys ↔ MayPass serverside app r historys
Checks-MayPass serverside app r historys =
    both_iff
      (either_iff (truthy_iff app.ylhostname) (
        string_in_slice-Listed r.host (split_char b',' app.ylhostname),
        Listed-string_in_slice r.host (split_char b',' app.ylhostname),
      ))
      (both_iff
        (either_iff same_iff (
          either_iff (str_eq_iff r.scheme (codes "https"))
            (find_sub_iff http_url_lst r.url (refl, tt))))
        (both_iff (either_iff same_iff (logged_in_iff app r)) (
          both_iff (either_iff (false_iff (is_guarded app r) (is_guarded_iff app r)) same_iff) (
            either_iff (str_eq_iff r.method (codes "GET"))
              (either_iff same_iff (str_eq_iff r.headertoken r.cookietoken))))))

-- A request passes exactly if it fulfils each of the conditions on host, scheme, session, second
-- factor and token, which are said of its texts, not of the code's tests.
pub prepare_iff :
    (serverside : ℕ) (app : AppConfig) (r : Request) (historys : List ℕ)
    → ((prepare serverside app r historys).0 ≡ passed) ↔ MayPass serverside app r historys
prepare_iff serverside app r historys =
    let code = prepare-Checks serverside app r historys in
    let said = Checks-MayPass serverside app r historys in
    (λ e. said.0 (code.0 e), λ m. code.1 (said.1 m))
