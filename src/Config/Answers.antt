-- ===== src/Config/Answers.antt =====
-- Which requests of the settings page an answer may send.
use yulong.Prelude.{◌≡◌, true, none, some}
use yulong.Text.{JsString, codes, truthy}
use yulong.Url.{url_update_query}
use yulong.Url.Stamp.{IsEntered, IsStamped, Carries}
use yulong.Page.{delete, Effect, send, get, Request, Reply, succeeded}
use yulong.Config.{Wait, white_added, State}
use yulong.Config.Step.{Answer, password, reply}

module _ (anchor_hash : JsString → JsString) (notice_url task_url : JsString) where
  -- What a reply may send: behind a successful new entry of the white list the deletion of the
  -- notices of that type and text, and else a read.
  abbrev pub IsFollowing : Wait → Reply → Request → Type 0
  IsFollowing (white_added kind info target) q r =
      (succeeded q ≡ true)
      × (r ≡ record {
        method = delete;
        url =
            url_update_query anchor_hash (codes "info") info
              (url_update_query anchor_hash (codes "type") kind notice_url);
        body = none;
      })
  IsFollowing w q r = r.method ≡ get

  -- What an answer may send with two factors: behind a password that was entered a request to a URL
  -- that has the password under `pass`, behind a reply what may follow it, and else a read.
  abbrev pub IsAuthorised : Wait → Answer → Effect Wait → Type 0
  IsAuthorised w (password (some p)) (send r k) = (truthy p ≡ true) × Carries p r.url
  IsAuthorised w (reply q) (send r k) = IsFollowing w q r
  IsAuthorised w a (send r k) = r.method ≡ get
  IsAuthorised w a _ = Unit

  abbrev pub AreStamped : State → Type 0
  AreStamped s = IsStamped anchor_hash s.config_url × IsStamped anchor_hash task_url

  abbrev pub IsHeld : Answer → Type 0
  IsHeld (password p) = IsEntered p
  IsHeld _ = Unit
