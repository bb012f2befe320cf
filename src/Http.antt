-- ===== src/Http.antt =====
-- What the program uses of the `http` and `hyper` crates: header names, values and maps, and URIs.
-- The crates are not part of the repository, so they are the parameter `h : Http` of every
-- definition, and `HttpLaws h` names the documented behaviour that theorems rely on.
use palisade.Prelude.{
  ℕ, ◌≡◌, refl, ◌↔◌, Bool, true, not, ◌&&◌, ◌||◌, Option, none, some, List, [], ◌∷◌, ◌++◌, leb,
  ◌==◌, if◌then◌else◌, Except, ok,
}
use palisade.Text.{Str, decimal, str_eq, str_eq_iff, is_empty, all}

pub record Http : Type 1 where
  pub HeaderName : Type 0
  pub HeaderValue : Type 0
  pub HeaderMap : Type 0
  pub Uri : Type 0
  pub Authority : Type 0
  pub Scheme : Type 0
  -- `HeaderName`: `as_str`, `from_bytes` (with the text of its error), and a literal used as a name.
  pub as_str : HeaderName → Str
  pub name_from_bytes : Str → Except Str HeaderName
  pub name_from_static : Str → HeaderName
  -- `HeaderValue`: `to_str`, `from_str`, `from_static`, and `from` an unsigned integer.
  pub to_str : HeaderValue → Option Str
  pub value_from_str : Str → Option HeaderValue
  pub value_from_static : Str → HeaderValue
  pub value_from_number : ℕ → HeaderValue
  -- `HeaderMap`: `new`, all values of a name in order, `get`, `contains_key`, `insert`, `append`,
  -- `remove`.
  pub headers_new : HeaderMap
  pub get_all : HeaderMap → HeaderName → List HeaderValue
  pub get : HeaderMap → HeaderName → Option HeaderValue
  pub contains_key : HeaderMap → HeaderName → Bool
  pub insert : HeaderMap → HeaderName → HeaderValue → HeaderMap
  pub append : HeaderMap → HeaderName → HeaderValue → HeaderMap
  pub remove : HeaderMap → HeaderName → HeaderMap
  -- `Uri`: `parse` (with the text of its error), the parts, `Display`, and `Uri::builder`.
  pub parse_uri : Str → Except Str Uri
  pub scheme : Uri → Option Scheme
  pub authority : Uri → Option Authority
  pub path : Uri → Str
  pub query : Uri → Option Str
  pub path_and_query : Uri → Option Str
  pub uri_text : Uri → Str
  pub uri_eq : Uri → Uri → Bool
  pub scheme_text : Scheme → Str
  pub authority_text : Authority → Str
  pub build_uri : Scheme → Authority → Str → Except Str Uri

-- The characters of a literal header name.
abbrev pub is_name_char : ℕ → Bool
is_name_char c = (leb b'a' c && leb c b'z') || c == b'-'

abbrev pub head? {ℓ} : {A : Type ℓ} → List A → Option A
head? [] = none
head? (x ∷ xs) = some x

module _ (h : Http) where
  open h use {HeaderName, as_str}

  -- Names are equal when their texts are: a name is kept in lower case.
  abbrev pub name_eq : HeaderName → HeaderName → Bool
  name_eq a b = str_eq (as_str a) (as_str b)

pub record HttpLaws (h : Http) : Type 0 where
  pub as_str-name_from_static :
      (s : Str) → all is_name_char s ≡ true → h.as_str (h.name_from_static s) ≡ s
  pub as_str-injective : (a b : h.HeaderName) → h.as_str a ≡ h.as_str b → a ≡ b
  pub get-get_all : (m : h.HeaderMap) (n : h.HeaderName) → h.get m n ≡ head? (h.get_all m n)
  pub contains_key-get_all :
      (m : h.HeaderMap) (n : h.HeaderName) → h.contains_key m n ≡ not (is_empty (h.get_all m n))
  pub get_all-new : (n : h.HeaderName) → h.get_all h.headers_new n ≡ []
  pub get_all-insert :
      (m : h.HeaderMap) (n k : h.HeaderName) (v : h.HeaderValue)
      → h.get_all (h.insert m n v) k ≡ (if name_eq h n k then v ∷ [] else h.get_all m k)
  pub get_all-append :
      (m : h.HeaderMap) (n k : h.HeaderName) (v : h.HeaderValue)
      → h.get_all (h.append m n v) k
        ≡ (if name_eq h n k then h.get_all m k ++ v ∷ [] else h.get_all m k)
  pub get_all-remove :
      (m : h.HeaderMap) (n k : h.HeaderName)
      → h.get_all (h.remove m n) k ≡ (if name_eq h n k then [] else h.get_all m k)
  pub to_str-value_from_str :
      (s : Str) (v : h.HeaderValue) → h.value_from_str s ≡ some v → h.to_str v ≡ some s
  pub to_str-value_from_number : (n : ℕ) → h.to_str (h.value_from_number n) ≡ some (decimal n)
  pub uri_eq_sym : (u v : h.Uri) → h.uri_eq u v ≡ h.uri_eq v u
  pub build_uri-parts :
      (s : h.Scheme) (a : h.Authority) (p : Str) (u : h.Uri)
      → h.build_uri s a p ≡ ok u
      → (h.scheme u ≡ some s) × (h.authority u ≡ some a)
  pub build_uri-path :
      (s : h.Scheme) (a : h.Authority) (p : Str) (o u : h.Uri)
      → h.path_and_query o ≡ some p
      → h.build_uri s a p ≡ ok u
      → h.path_and_query u ≡ some p

module _ (h : Http) (l : HttpLaws h) where
  open h use {HeaderName, as_str, name_from_static}
  open l use {as_str-name_from_static, as_str-injective}

  pub name_eq_iff : (a b : HeaderName) → (name_eq h a b ≡ true) ↔ (a ≡ b)
  name_eq_iff a b = (
    λ e. as_str-injective a b ((str_eq_iff (as_str a) (as_str b)).0 e),
    λ e. rw e ((str_eq_iff (as_str b) (as_str b)).1 refl),
  )

  -- Two literals name one header exactly when they are the same text.
  pub name_eq-static :
      (s t : Str)
      → all is_name_char s ≡ true
      → all is_name_char t ≡ true
      → name_eq h (name_from_static s) (name_from_static t) ≡ str_eq s t
  name_eq-static s t p q = rw (as_str-name_from_static s p, as_str-name_from_static t q)
