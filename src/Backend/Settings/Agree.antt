-- ===== src/Backend/Settings/Agree.antt =====
-- When the settings that the page shows are those of the database, and how a change of one list
-- keeps it so.
use mathlib.Core.Option.{map}
use yulong.Prelude.{
  ℕ, zero, suc, ◌≡◌, refl, sym, ap, ◌∙◌, inl, inr, false, ◌&&◌, ◌||◌, not, List, [], ◌∷◌, ◌++◌,
  some, arith, get_elem?, if◌then◌else◌, ◌==◌, ==_refl, Bool-cases,
}
use yulong.Text.{JsString, str_eq}
use yulong.Text.Laws.{str_eq_iff, str_eq_refl}
use yulong.Filters.Laws.{without}
use yulong.Config.{Config, lookup_dic, put_values, put_dic, contains}
use yulong.Backend.Store.{Store, Values}

-- A list of the page, its order forgotten.
abbrev pub values : List JsString → Values
values vs x = contains x vs

pub values-append :
    (v : JsString) (vs : List JsString) (x : JsString)
    → values (vs ++ v ∷ []) x ≡ (values vs x || str_eq v x)
values-append v [] x = ground arith
values-append v (w ∷ vs) x = ground (arith, values-append v vs x)

pub values-without :
    (v : JsString) (vs : List JsString) (x : JsString)
    → values (without v vs) x ≡ (values vs x && not (str_eq v x))
values-without v [] x = refl
values-without v (w ∷ vs) x =
    ground (arith, values-without v vs x, str_eq_iff w v, str_eq_iff v x, str_eq_iff w x)

lookup_dic-put_dic :
    (k key : JsString) (ws : List JsString) (d : List (JsString × List JsString))
    → lookup_dic k (put_dic key ws d)
      ≡ (if str_eq key k then map (λ vs. ws) (lookup_dic key d) else lookup_dic k d)
lookup_dic-put_dic k key ws [] = ground arith
lookup_dic-put_dic k key ws ((j, vs) ∷ d) =
    ground
      (arith, lookup_dic-put_dic k key ws d, str_eq_iff j key, str_eq_iff key k, str_eq_iff j k)

abbrev with_list : JsString → List JsString → Config → Config
with_list key ws c = record c { dic = put_dic key ws c.dic }

get_elem?-put_values :
    (i index : ℕ) (key : JsString) (ws : List JsString) (cs : List Config)
    → get_elem? (put_values index key ws cs) i
      ≡ (if i == index then map (with_list key ws) (get_elem? cs i) else get_elem? cs i)
get_elem?-put_values i index key ws [] = ground arith
get_elem?-put_values zero zero key ws (c ∷ cs) = refl
get_elem?-put_values zero (suc n) key ws (c ∷ cs) = ground arith
get_elem?-put_values (suc i) zero key ws (c ∷ cs) = ground arith
get_elem?-put_values (suc i) (suc n) key ws (c ∷ cs) =
    ground (arith, get_elem?-put_values i n key ws cs)

-- The groups have different identifiers.
abbrev pub IsDistinct : List Config → Type 0
IsDistinct cs =
    (i j : ℕ) (g h : Config)
    → get_elem? cs i ≡ some g
    → get_elem? cs j ≡ some h
    → g.id ≡ h.id
    → i ≡ j

unwrap : {a b : Config} → some a ≡ some b → a ≡ b
unwrap h = cc

str_eq_sym : (s t : JsString) → str_eq s t ≡ str_eq t s
str_eq_sym s t = ground (arith, str_eq_iff s t, str_eq_iff t s)

module _ {Db : Type 0} (store : Store Db) where
  -- Each list of the page is that of the document with its group's identifier.
  abbrev pub Agrees : List Config → Db → Type 0
  Agrees cs db =
      (i : ℕ) (g : Config) (k : JsString)
      → get_elem? cs i ≡ some g
      → map values (lookup_dic k g.dic) ≡ store.find db g.id k

  module _ (cs : List Config) (index : ℕ) (g : Config) (key : JsString) (vs ws : List JsString)
      (e : get_elem? cs index ≡ some g) (l : lookup_dic key g.dic ≡ some vs) where
    get_changed : get_elem? (put_values index key ws cs) index ≡ some (with_list key ws g)
    get_changed = get_elem?-put_values index index key ws cs ∙ rw (==_refl index, e) refl

    get_other :
        (i : ℕ) (h : Config)
        → (i == index) ≡ false
        → get_elem? (put_values index key ws cs) i ≡ some h
        → get_elem? cs i ≡ some h
    get_other i h n f = ground (arith, get_elem?-put_values i index key ws cs)

    changed_list :
        (db next : Db) (k : JsString)
        → store.find next g.id key ≡ some (values ws)
        → ((i k : JsString)
            → (str_eq i g.id && str_eq k key) ≡ false
            → store.find next i k ≡ store.find db i k)
        → Agrees cs db
        → map values (lookup_dic k (put_dic key ws g.dic)) ≡ store.find next g.id k
    changed_list db next k here others a = elim (Bool-cases (str_eq key k)) [
      | inl u ↦
          let same : key ≡ k = (str_eq_iff key k).0 u in
          let found : lookup_dic k (put_dic key ws g.dic) ≡ some ws =
            lookup_dic-put_dic k key ws g.dic ∙ rw (u, l) refl in
          ap (map values) found ∙ sym here ∙ ap (store.find next g.id) same
      | inr u ↦
          let apart : (str_eq g.id g.id && str_eq k key) ≡ false =
            rw (str_eq_refl g.id) (str_eq_sym k key ∙ u) in
          let kept : lookup_dic k (put_dic key ws g.dic) ≡ lookup_dic k g.dic =
            lookup_dic-put_dic k key ws g.dic ∙ rw u refl in
          ap (map values) kept ∙ a index g k e ∙ sym (others g.id k apart)
    ]

    other_id :
        (i : ℕ) (h : Config) (k : JsString)
        → IsDistinct cs
        → (i == index) ≡ false
        → get_elem? cs i ≡ some h
        → (str_eq h.id g.id && str_eq k key) ≡ false
    other_id i h k d n f = elim (Bool-cases (str_eq h.id g.id)) [
      | inl u ↦
          let same : i ≡ index = d i index h g f e ((str_eq_iff h.id g.id).0 u) in
          absurd (ground arith)
      | inr u ↦ rw u refl
    ]

    -- If the database's list is changed to the same values and every other one stays, the page with
    -- its list changed agrees with it.
    pub put_values-Agrees :
        (db next : Db)
        → IsDistinct cs
        → store.find next g.id key ≡ some (values ws)
        → ((i k : JsString)
            → (str_eq i g.id && str_eq k key) ≡ false
            → store.find next i k ≡ store.find db i k)
        → Agrees cs db
        → Agrees (put_values index key ws cs) next
    put_values-Agrees db next d here others a i h k f = elim (Bool-cases (i == index)) [
      | inl t ↦
          let same : i ≡ index = ground arith in
          let moved : get_elem? (put_values index key ws cs) index ≡ some h =
            ap (get_elem? (put_values index key ws cs)) (sym same) ∙ f in
          let changed : with_list key ws g ≡ h = unwrap (sym get_changed ∙ moved) in
          ap (λ c. map values (lookup_dic k c.dic)) (sym changed)
          ∙ changed_list db next k here others a
          ∙ ap (λ c. store.find next c.id k) changed
      | inr t ↦
          let there : get_elem? cs i ≡ some h = get_other i h t f in
          a i h k there ∙ sym (others h.id k (other_id i h k d t there))
    ]

pub put_values-id :
    (i index : ℕ) (key : JsString) (ws : List JsString) (cs : List Config) (h : Config)
    → get_elem? (put_values index key ws cs) i ≡ some h
    → (c : Config) × (get_elem? cs i ≡ some c) × (c.id ≡ h.id)
put_values-id i index key ws [] h f = cc
put_values-id zero zero key ws (c ∷ cs) h f = (c, refl, ap (λ d. d.id) (unwrap f))
put_values-id zero (suc n) key ws (c ∷ cs) h f = (c, refl, ap (λ d. d.id) (unwrap f))
put_values-id (suc i) zero key ws (c ∷ cs) h f = (h, f, refl)
put_values-id (suc i) (suc n) key ws (c ∷ cs) h f = put_values-id i n key ws cs h f

pub put_values-IsDistinct :
    (index : ℕ) (key : JsString) (ws : List JsString) (cs : List Config)
    → IsDistinct cs
    → IsDistinct (put_values index key ws cs)
put_values-IsDistinct index key ws cs d i j g h e f same =
    let (b, eb, ib) = put_values-id i index key ws cs g e in
    let (c, ec, ic) = put_values-id j index key ws cs h f in d i j b c eb ec (ib ∙ same ∙ sym ic)
