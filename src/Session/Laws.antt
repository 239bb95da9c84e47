-- ===== src/Session/Laws.antt =====
-- What the login form sends.
use yulong.Prelude.{
  ℕ, ◌==◌, ◌≡◌, refl, Bool, true, false, ◌||◌, not, some, All, Bool-cases, inl, inr, arith,
}
use yulong.Text.{JsString, truthy, trim}
use yulong.Text.Trim.{IsTrimmed, trim-IsTrimmed}
use yulong.Page.{Effect, send, post}
use yulong.Session.{Wait, credentials, click_login, keyup}

-- A text that is left when white space is taken away, and not empty.
abbrev pub IsFilled : JsString → Type 0
IsFilled s = IsTrimmed s × (truthy s ≡ true)

-- A request of the login page carries a name and a password.
abbrev pub IsLogin : JsString → Effect Wait → Type 0
IsLogin href (send r k) =
    (user : JsString) × (pass : JsString) × (r
      ≡ record { method = post; url = href; body = some (credentials user pass) })
    × IsFilled user
    × IsFilled pass
IsLogin href _ = Unit

both_filled : (a b : Bool) → (not a || not b) ≡ false → (a ≡ true) × (b ≡ true)
both_filled a b h = ground arith

click_login-IsLogin :
    (href username password : JsString) → All (IsLogin href) (click_login href username password)
unfolding click_login
click_login-IsLogin href username password =
    elim (Bool-cases (not (truthy (trim username)) || not (truthy (trim password)))) [
      | inl e ↦ rw (click_login, e) (tt, tt)
      | inr e ↦
          let (u, p) = both_filled (truthy (trim username)) (truthy (trim password)) e in
          rw (click_login, e)
            (
              (
                trim username,
                trim password,
                refl,
                (trim-IsTrimmed username, u),
                (trim-IsTrimmed password, p),
              ),
              tt,
            )
    ]

-- Whichever key is let go in the login form, a request goes only to the form's own address, and
-- carries a name and a password that are not empty and have no white space at either end.
pub keyup-IsLogin :
    (code : ℕ) (href username password : JsString)
    → All (IsLogin href) (keyup code href username password)
unfolding keyup
keyup-IsLogin code href username password = elim (Bool-cases (code == 13)) [
  | inl e ↦ rw e (click_login-IsLogin href username password)
  | inr e ↦ rw e tt
]
