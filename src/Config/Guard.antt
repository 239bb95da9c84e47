-- ===== src/Config/Guard.antt =====
-- Which requests of the settings page wait for the second factor.
use yulong.Prelude.{
  some, ℕ, ◌≡◌, refl, ◌⊎◌, inl, inr, Bool, true, ◌&&◌, not, [], ◌∷◌, All, Bool-cases, Option-cases,
  get_elem?, if◌then◌else◌, ◌==◌,
}
use yulong.Text.{JsString, codes, str_eq}
use yulong.Page.{Effect, send, get, put}
use yulong.Config.{Config, Wait, State, white_json, white_info}
use yulong.Config.Items.{change_item}
use yulong.Config.Step.{
  Action, edit, add, del, hover, add_white, clean_notice, update_bool, close_learn, save_info,
  pull_all, act, put_white, update_switch,
}

module _ (anchor_hash : JsString → JsString) (notice_url task_url : JsString) where
  -- A request that changes nothing, one that only concerns the notices, or the one that puts an
  -- entry into the white list: the value that a notice gives, for the group of the white list.
  abbrev pub IsOpen : State → Effect Wait → Type 0
  IsOpen s (send r k) =
      (r.method ≡ get)
      ⊎ ((r.url ≡ notice_url)
          ⊎ ((kind : JsString) × ((info : JsString) × ((i : ℕ) × ((c : Config) × (s.white_index
                      ≡ some i)
                    × (get_elem? s.configs i ≡ some c)
                    × (r ≡ record {
                      method = put;
                      url = s.config_url;
                      body = some (white_json c.id kind (white_info kind info));
                    }))))))
  IsOpen s _ = Unit

  change_item-IsOpen :
      (index : ℕ) (key value : JsString) (s : State)
      → All (IsOpen s) (change_item anchor_hash true notice_url task_url index key value s).1
  unfolding change_item
  change_item-IsOpen index key value s = elim (Option-cases (get_elem? s.configs index)) [
    | inl e ↦ rw (change_item, e) (tt, tt)
    | inr (c, e) ↦ rw (change_item, e) (tt, tt)
  ]

  put_white-IsOpen :
      (kind info : JsString) (count : ℕ) (target : JsString) (s : State)
      → All (IsOpen s) (put_white anchor_hash true notice_url task_url kind info count target s).1
  unfolding put_white
  put_white-IsOpen kind info count target s = elim (Bool-cases (count == 1)) [
    | inl e ↦ rw (put_white, e) (inr (inl refl), tt)
    | inr e ↦ elim (Option-cases s.white_index) [
      | inl w ↦ rw (put_white, e, w) (tt, tt)
      | inr (i, w) ↦ elim (Option-cases (get_elem? s.configs i)) [
        | inl g ↦ rw (put_white, e, w, g) (tt, tt)
        | inr (c, g) ↦
            rw (put_white, e, w, g) (inr (inr (kind, (info, (i, (c, refl, g, refl))))), tt)
      ]
    ]
  ]

  update_switch-IsOpen :
      (index : ℕ) (key : JsString) (checked : Bool) (s : State)
      → All (IsOpen s) (update_switch anchor_hash true notice_url task_url index key checked s).1
  unfolding update_switch
  update_switch-IsOpen index key checked s =
      elim (Bool-cases (not checked && str_eq key (codes "learn"))) [
        | inl e ↦ rw (update_switch, e) (inl refl, tt)
        | inr e ↦
            rw (update_switch, e)
              (change_item-IsOpen index key (if checked then codes "true" else codes "false") s)
      ]

  save_info-IsOpen :
      (index : ℕ) (key value : JsString) (s : State)
      → All (IsOpen s) (act anchor_hash true notice_url task_url (save_info index key value) s).1
  unfolding act
  save_info-IsOpen index key [] s = tt
  save_info-IsOpen index key (c ∷ v) s = change_item-IsOpen index key (c ∷ v) s

  -- With two factors no action on the settings page sends a request that changes the server's
  -- state, but for those about notices and for the one that puts a notice's value into the white
  -- list, the group that the page found to be it.
  pub settings-IsOpen :
      (a : Action) (s : State) → All (IsOpen s) (act anchor_hash true notice_url task_url a s).1
  unfolding act
  settings-IsOpen (edit index key origin) s = (tt, tt)
  settings-IsOpen (add index key) s = (tt, tt)
  settings-IsOpen (del id index key target) s = elim (Option-cases s.ele) [
    | inl e ↦ rw (act, e) (tt, tt)
    | inr (shown, e) ↦ rw (act, e) (tt, tt)
  ]
  settings-IsOpen (hover shown) s = tt
  settings-IsOpen (add_white kind info count target) s = put_white-IsOpen kind info count target s
  settings-IsOpen clean_notice s = (inr (inl refl), tt)
  settings-IsOpen (update_bool index key checked) s = update_switch-IsOpen index key checked s
  settings-IsOpen (close_learn index key) s = change_item-IsOpen index key (codes "false") s
  settings-IsOpen (save_info index key value) s = save_info-IsOpen index key value s
  settings-IsOpen (pull_all system) s = (tt, tt)
