-- ===== src/Backend/Settings/Sync.antt =====
-- What the settings page shows is what the database holds.
use yulong.Url.{url_update_query}
use yulong.Config.Items.{add_answer, del_answer}
use yulong.Prelude.{
  All, ℕ, ◌≡◌, sym, ap, ◌∙◌, inl, inr, false, ◌&&◌, ◌||◌, List, [], ◌∷◌, ◌++◌, some, get_elem?,
  Bool-cases, Option-cases,
}
use mathlib.Core.Option.{map}
use mathlib.Core.Path.{fun_ext}
use yulong.Text.{JsString, codes, str_eq, includes, trim}
use yulong.Page.{request_password}
use yulong.Filters.Laws.{without}
use yulong.Config.{Config, State, lookup_dic, values_at, put_values, contains, item_json}
use yulong.Config.Step.{act, answer}
use yulong.Backend.Store.{IsLawful}
use yulong.Backend.Settings.Agree.{
  values, Agrees, IsDistinct, values-append, values-without, put_values-Agrees, put_values-id,
  put_values-IsDistinct,
}
use yulong.Backend.Settings.Exchange.{
  World, add_value, delete_value, update-cases, failed_added, added, asked, failed_deleted, deleted,
  sent, asked_deletion, add_request, delete_request,
}

module _ {Db : Type 0} (world : World Db) where
  -- The lists agree, and every group has an identifier of its own, which is no name of a list.
  pub record InSync (cs : List Config) (db : Db) : Type 0 where
    pub agrees : Agrees world.store cs db
    pub distinct : IsDistinct cs
    pub untagged :
        (i : ℕ) (g : Config)
        → get_elem? cs i ≡ some g
        → (str_eq g.id (codes "blacklist") || str_eq g.id (codes "whitelist")) ≡ false

  module _ (laws : IsLawful world.store) (index : ℕ) (key : JsString)
      (plain : includes b'.' key ≡ false) where
    -- The page's list of the group, and the database's.
    here :
        (cs : List Config) (g : Config) (vs : List JsString) (db : Db)
        → InSync cs db
        → get_elem? cs index ≡ some g
        → values_at index key cs ≡ some vs
        → (lookup_dic key g.dic ≡ some vs) × (world.store.find db g.id key ≡ some (values vs))
    here cs g vs db k e l =
        let found : lookup_dic key g.dic ≡ some vs = rw (values_at, e) at l in
        (found, sym (k.agrees index g key e) ∙ ap (map values) found)

    changed :
        (cs : List Config) (g : Config) (vs ws : List JsString) (db next : Db)
        → InSync cs db
        → get_elem? cs index ≡ some g
        → lookup_dic key g.dic ≡ some vs
        → world.store.find next g.id key ≡ some (values ws)
        → ((i k : JsString)
            → (str_eq i g.id && str_eq k key) ≡ false
            → world.store.find next i k ≡ world.store.find db i k)
        → InSync (put_values index key ws cs) next
    changed cs g vs ws db next k e l f others = record {
      agrees =
          put_values-Agrees world.store cs index g key vs ws e l db next k.distinct f others
            k.agrees;
      distinct = put_values-IsDistinct index key ws cs k.distinct;
      untagged = λ i h t.
          let (c, u, w) = put_values-id i index key ws cs h t in
          ap (λ x. str_eq x (codes "blacklist") || str_eq x (codes "whitelist")) (sym w)
          ∙ k.untagged i c u;
    }

    password_sent :
        (c d : ℕ) (v p : JsString) (g : Config) (vs : List JsString) (s : State) (db : Db)
        → InSync s.configs db
        → get_elem? s.configs index ≡ some g
        → values_at index key s.configs ≡ some vs
        → contains (c ∷ v) vs ≡ false
        → let (t, next) = add_value world index key (c ∷ v) (d ∷ p) (s, db) in InSync t.configs next
    password_sent c d v p g vs s db k e l n =
        let (found, held) = here s.configs g vs db k e l in
        let t : State = record s {
          json = item_json g.id key (c ∷ v);
          config_url = url_update_query world.anchor_hash (codes "pass") (d ∷ p) s.config_url;
        } in
        rw (asked world index key c d v p g vs s db e l n (k.untagged index g e))
          (elim (update-cases world (world.gate (add_request world g.id key (c ∷ v) (d ∷ p) s)) g.id
            (c ∷ v) (world.store.add_to_set g.id key (c ∷ v)) db) [
              | inl (r, f, u) ↦ rw (u, failed_added world index key (c ∷ v) r t db f) k
              | inr (next, a, u) ↦
                  rw (u, added world index key (c ∷ v) vs t next l)
                    (changed s.configs g vs (vs ++ (c ∷ v) ∷ []) db next k e found
                      (laws.find-add_to_set g.id key (c ∷ v) (values vs) db next plain a held
                        ∙ ap some (fun_ext (λ x. sym (values-append (c ∷ v) vs x))))
                      (λ i j. laws.find-add_to_set-other g.id key (c ∷ v) i j db next plain a))
            ])

    password_typed :
        (c : ℕ) (v p : JsString) (g : Config) (vs : List JsString) (s : State) (db : Db)
        → InSync s.configs db
        → get_elem? s.configs index ≡ some g
        → values_at index key s.configs ≡ some vs
        → contains (c ∷ v) vs ≡ false
        → let (t, next) = add_value world index key (c ∷ v) p (s, db) in InSync t.configs next
    unfolding answer add_answer request_password
    password_typed c v [] g vs s db k e l n = rw (answer, add_answer, e, l, n) k
    password_typed c v (d ∷ p) g vs s db k e l n = password_sent c d v p g vs s db k e l n

    -- Adding a value keeps the page and the database in agreement, whatever is typed and however
    -- the backend answers.
    pub add_value-InSync :
        (v p : JsString) (s : State) (db : Db)
        → InSync s.configs db
        → let (t, next) = add_value world index key v p (s, db) in InSync t.configs next
    unfolding answer add_answer
    add_value-InSync [] p s db k = k
    add_value-InSync (c ∷ v) p s db k = elim (Option-cases (get_elem? s.configs index)) [
      | inl e ↦ rw (answer, add_answer, e) k
      | inr (g, e) ↦ elim (Option-cases (values_at index key s.configs)) [
        | inl l ↦ rw (answer, add_answer, e, l) k
        | inr (vs, l) ↦ elim (Bool-cases (contains (c ∷ v) vs)) [
          | inl n ↦ rw (answer, add_answer, e, l, n) k
          | inr n ↦ password_typed c v p g vs s db k e l n
        ]
      ]
    ]

    deletion_sent :
        (shown : JsString) (d : ℕ) (p : JsString) (g : Config) (vs : List JsString) (s : State)
        (db : Db)
        → InSync s.configs db
        → get_elem? s.configs index ≡ some g
        → values_at index key s.configs ≡ some vs
        → let (t, next) = delete_value world index key shown (d ∷ p) (s, db) in
          InSync t.configs next
    deletion_sent shown d p g vs s db k e l =
        let (found, held) = here s.configs g vs db k e l in
        let v : JsString = trim shown in
        let t : State = sent world shown (d ∷ p) s in
        rw (asked_deletion world index key shown d p g vs s db e l)
          (elim (update-cases world (world.gate (delete_request world g.id key v (d ∷ p) s)) g.id v
            (world.store.pull g.id key v) db) [
              | inl (r, f, u) ↦ rw (u, failed_deleted world index key r t db f) k
              | inr (next, a, u) ↦
                  rw (u, deleted world index key vs t next l)
                    (changed s.configs g vs (without v vs) db next k e found
                      (laws.find-pull g.id key v (values vs) db next plain a held
                        ∙ ap some (fun_ext (λ x. sym (values-without v vs x))))
                      (λ i j. laws.find-pull-other g.id key v i j db next plain a))
            ])

    deletion_typed :
        (shown p : JsString) (g : Config) (vs : List JsString) (s : State) (db : Db)
        → InSync s.configs db
        → get_elem? s.configs index ≡ some g
        → values_at index key s.configs ≡ some vs
        → let (t, next) = delete_value world index key shown p (s, db) in InSync t.configs next
    unfolding act answer del_answer request_password
    deletion_typed shown [] g vs s db k e l = rw (delete_value, e, l) k
    deletion_typed shown (d ∷ p) g vs s db k e l = deletion_sent shown d p g vs s db k e l

    -- Deleting a value keeps the page and the database in agreement.
    pub delete_value-InSync :
        (shown p : JsString) (s : State) (db : Db)
        → InSync s.configs db
        → let (t, next) = delete_value world index key shown p (s, db) in InSync t.configs next
    delete_value-InSync shown p s db k = elim (Option-cases (get_elem? s.configs index)) [
      | inl e ↦ rw (delete_value, e) k
      | inr (g, e) ↦ elim (Option-cases (values_at index key s.configs)) [
        | inl l ↦ rw (delete_value, e, l) k
        | inr (vs, l) ↦ deletion_typed shown p g vs s db k e l
      ]
    ]

  -- What the operator does with the lists of values.
  pub data Dialogue : Type 0 where
    adding : ℕ → JsString → JsString → JsString → Dialogue
    deleting : ℕ → JsString → JsString → JsString → Dialogue

  abbrev pub run_dialogues : List Dialogue → State × Db → State × Db
  run_dialogues [] t = t
  run_dialogues (adding index key v p ∷ ds) t = run_dialogues ds (add_value world index key v p t)
  run_dialogues (deleting index key shown p ∷ ds) t =
      run_dialogues ds (delete_value world index key shown p t)

  -- No dot leads into a list.
  abbrev pub IsPlain : Dialogue → Type 0
  IsPlain (adding index key v p) = includes b'.' key ≡ false
  IsPlain (deleting index key shown p) = includes b'.' key ≡ false

  -- Where the lists of values that the page shows are those of the database, and each group has an
  -- identifier of its own, neither "blacklist" nor "whitelist", this stays so through any additions
  -- and deletions of values in lists without a dot in their names, whatever is typed, and whether
  -- the backend lets the requests through, refuses them or fails. The database keeps its laws.
  pub run_dialogues-InSync :
      (ds : List Dialogue) (s : State) (db : Db)
      → IsLawful world.store
      → All IsPlain ds
      → InSync s.configs db
      → InSync (run_dialogues ds (s, db)).0.configs (run_dialogues ds (s, db)).1
  run_dialogues-InSync [] s db laws h k = k
  run_dialogues-InSync (adding index key v p ∷ ds) s db laws (h, hs) k =
      let next = add_value world index key v p (s, db) in
      run_dialogues-InSync ds next.0 next.1 laws hs (add_value-InSync laws index key h v p s db k)
  run_dialogues-InSync (deleting index key shown p ∷ ds) s db laws (h, hs) k =
      let next = delete_value world index key shown p (s, db) in
      run_dialogues-InSync ds next.0 next.1 laws hs
        (delete_value-InSync laws index key h shown p s db k)
