-- ===== src/Url/Tests.antt =====
-- Runs of the URL helpers, and instances of their laws.
use yulong.Prelude.{
  sym, ◌∙◌, append-nil, ◌≡◌, ◌≢◌, All, All-append, refl, List, [], ◌∷◌, ◌++◌, none, some, arith,
  ◌==◌, if◌then◌else◌,
}
use yulong.Text.{JsString, codes, truthy}
use yulong.Url.{url_update_query, url_add_Paginator, update_uri}
use yulong.Url.Query.{Pair, IsPlainPath, render, put_query, same_name}
use yulong.Url.Stamp.{stamped, Reports, IsStamped}
use yulong.Url.Laws.{url_update_query-render, url_update_query-dollar}

-- A browser's `hash` of a URL whose fragment is plain ASCII.
abbrev pub plain_hash : JsString → JsString
plain_hash [] = []
plain_hash (c ∷ s) = if c == b'#' then if truthy s then c ∷ s else [] else plain_hash s

plain_hash-none : (s : JsString) → All (λ c. c ≢ b'#') s → plain_hash s ≡ []
plain_hash-none [] h = refl
plain_hash-none (c ∷ s) (h, hs) = ground (arith, plain_hash-none s hs)

-- It reports that there is none in a path without `#`, whatever password is written behind it.
pub plain_hash-Reports :
    (path : JsString) → All (λ c. c ≢ b'#') path → Reports path [] [] plain_hash
plain_hash-Reports path h none k =
    plain_hash-none (stamped path [] [] none)
      (All-append (λ c. c ≢ b'#') (path ++ []) [] (All-append (λ c. c ≢ b'#') path [] h tt) tt)
plain_hash-Reports path h (some p) k = plain_hash-none (stamped path [] [] (some p)) (
    All-append (λ c. c ≢ b'#') (path ++ (codes "?pass=" ++ (p ++ []))) []
      (All-append (λ c. c ≢ b'#') path (codes "?pass=" ++ (p ++ [])) h
        (All-append (λ c. c ≢ b'#') (codes "?pass=") (p ++ []) (ground arith)
          (All-append (λ c. c ≢ b'#') p [] k.1 tt)))
      tt)

-- Such a path can hold a password.
pub plain_hash-IsStamped :
    (path : JsString) → All (λ c. c ≢ b'#') path → IsPlainPath path → IsStamped plain_hash path
plain_hash-IsStamped path h k = record {
  path = path;
  hash = [];
  pairs = [];
  held = none;
  reports = plain_hash-Reports path h;
  plain = k;
  query = tt;
  usable = tt;
  text = sym (append-nil (path ++ []) ∙ append-nil path);
}

abbrev query : List Pair
query = (codes "Page", codes "3") ∷ (codes "q", codes "ssh") ∷ []

next_page :
    url_update_query plain_hash (codes "page") (codes "4") (codes "/json/client?Page=3&q=ssh#!/x")
    ≡ codes "/json/client?page=4&q=ssh#!/x"
unfolding url_update_query
next_page = refl

first_page :
    url_add_Paginator plain_hash (some (codes "1")) (some (codes "24")) (codes "/json/client")
    ≡ codes "/json/client?page=1"
unfolding url_add_Paginator url_update_query
first_page = refl

-- A directive in the value is read as one.
password_directive :
    update_uri (codes "pass") (codes "a$&b") (codes "/c?pass=x") ≡ codes "/c?pass=a?pass=xb"
unfolding update_uri
password_directive = refl

url_update_query-render_example :
    url_update_query plain_hash (codes "page") (codes "4") (render (codes "/c") query ++ codes "#t")
    ≡ render (codes "/c") (put_query (codes "page") (codes "4") query) ++ codes "#t"
url_update_query-render_example =
    url_update_query-render plain_hash (codes "/c") (codes "page") (codes "4") (codes "#t") query
      refl (λ h. cc) (ground arith) (ground arith) (ground arith) (ground arith) (ground arith)

url_update_query-dollar_example :
    url_update_query plain_hash
      (codes "pass")
      (codes "s3cret$")
      (render (codes "/json/config") ((codes "pass", codes "old") ∷ []))
    ≡ codes "/json/config?pass=s3cret$2"
url_update_query-dollar_example =
    url_update_query-dollar plain_hash (codes "/json/config") (codes "pass") (codes "pass")
      (codes "old") (codes "s3cret") refl (λ h. cc) (ground arith) (ground arith) (ground arith)
      (ground arith) (ground arith) (ground arith) (unfold same_name in refl)
