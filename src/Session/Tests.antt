-- ===== src/Session/Tests.antt =====
-- Runs around the pages, and an instance of the theorem about the login form.
use yulong.Prelude.{◌≡◌, refl, false, [], ◌∷◌, some, All}
use yulong.Text.{codes, trim, is_space}
use yulong.Page.{send, post, reload, alert, warning, go_to}
use yulong.Session.{
  credentials, login_answered, click_login, keyup, redirect_response, intercept_request, click_menu,
  modal_option_click,
}
use yulong.Session.Laws.{IsLogin, keyup-IsLogin}

trimmed :
    keyup 13 (codes "/login") (codes " admin ") (codes "s3cret\n")
    ≡ send
        (record {
          method = post;
          url = codes "/login";
          body = some (credentials (codes "admin") (codes "s3cret"));
        })
        login_answered
      ∷ []
unfolding keyup click_login trim is_space
trimmed = refl

blank_password :
    click_login (codes "/login") (codes "admin") (codes "  ")
    ≡ alert warning (codes "输入错误!") (codes "用户名及密码不可为空") ∷ []
unfolding click_login trim is_space
blank_password = refl

-- A page in place of an answer leads to the login page.
logged_out :
    redirect_response
      (codes "/login")
      (record { is_login_page = some (codes "true"); content_type = some (codes "text/html") })
    ≡ go_to (codes "/login") ∷ []
unfolding redirect_response
logged_out = refl

token_replaced :
    intercept_request false (codes "new") ((codes "RequestToken", codes "old") ∷ [])
    ≡ (codes "RequestToken", codes "new") ∷ []
unfolding intercept_request
token_replaced = refl

same_page : click_menu (codes "http://host/#!/rules") (some (codes "/#!/rules")) ≡ reload ∷ []
unfolding click_menu
same_page = refl

needs_no_command :
    modal_option_click (codes "update")
    ≡ alert warning (codes "Oops!") (codes "update类型的任务无需填写command") ∷ []
unfolding modal_option_click
needs_no_command = refl

keyup-IsLogin_example :
    All (IsLogin (codes "/login")) (keyup 13 (codes "/login") (codes " admin ") (codes "s3cret\n"))
keyup-IsLogin_example = keyup-IsLogin 13 (codes "/login") (codes " admin ") (codes "s3cret\n")
