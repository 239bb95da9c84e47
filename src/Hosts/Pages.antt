-- ===== src/Hosts/Pages.antt =====
-- Which page of hosts a new filter asks for.
use yulong.Prelude.{ℕ, zero, suc, ◌+◌, ◌≡◌, refl, [], arith}
use yulong.Text.{JsString}
use yulong.Hosts.{State, more, re_search, act, get_result}

module _ (anchor_hash : JsString → JsString) (client_url : JsString) where
  -- `n` further pages.
  abbrev pub after_more : ℕ → State → State
  after_more zero s = s
  after_more (suc n) s = after_more n (act anchor_hash client_url more s).0

  after_more-page : (n : ℕ) (s : State) → (after_more n s).current_page ≡ s.current_page + n
  unfolding act
  after_more-page zero s = omega arith
  after_more-page (suc n) s = omega (arith, after_more-page n (act anchor_hash client_url more s).0)

  -- Behind `n` further pages a new filter empties the list and asks for the page that was reached,
  -- not for the first one: the same request as with the filter set on a page that far.
  pub re_search-page :
      (n : ℕ) (filter : JsString) (s : State)
      → let t = after_more n s in
        ((act anchor_hash client_url (re_search filter) t).0.hosts ≡ [])
        × ((act anchor_hash client_url (re_search filter) t).0.current_page ≡ s.current_page + n)
        × ((act anchor_hash client_url (re_search filter) t).1
            ≡ (get_result anchor_hash client_url
                (record s { current_page = s.current_page + n; search_filter = filter })).1)
  unfolding act get_result
  re_search-page n filter s = let p = after_more-page n s in (refl, p, rw p refl)
