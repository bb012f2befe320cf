-- ===== src/Headers/HopByHop.antt =====
-- What stripping leaves of a header map.
use palisade.Prelude.{
  ◌≡◌, refl, Bool, true, false, ◌||◌, not, List, [], ◌∷◌, map, arith, if◌then◌else◌, ok, err,
  Bool-cases, if_or, Except-cases, inl, inr,
}
use palisade.Text.{str_eq_iff, Str, str_eq, any, all}
use palisade.Http.{Http, HttpLaws, name_eq, is_name_char}
use palisade.Headers.{hop_by_hop, declared, remove_all, strip_hop_by_hop, strip_response_headers}

-- A text that is none of a list is not equal to one that is.
other_text :
    (x s : Str) (ts : List Str)
    → any (λ t. str_eq t s) ts ≡ true
    → all (λ t. not (str_eq x t)) ts ≡ true
    → str_eq x s ≡ false
other_text x s [] a b = cc
other_text x s (t ∷ ts) a b = elim (Bool-cases (str_eq t s)) [
  | inl e ↦ rw (← (str_eq_iff t s).0 e) (ground arith)
  | inr e ↦ other_text x s ts (ground arith) (ground arith)
]

module _ (h : Http) (l : HttpLaws h) where
  open h use {HeaderName, HeaderMap, name_from_static, name_from_bytes, get_all, as_str}

  -- Whether a name is one of a list.
  abbrev pub names : List HeaderName → HeaderName → Bool
  names ns k = any (λ n. name_eq h n k) ns

  pub get_all-remove_all :
      (ns : List HeaderName) (m : HeaderMap) (k : HeaderName)
      → get_all (remove_all h m ns) k ≡ (if names ns k then [] else get_all m k)
  unfolding remove_all
  get_all-remove_all [] m k = refl
  get_all-remove_all (n ∷ ns) m k =
      ground (arith, get_all-remove_all ns (h.remove m n) k, l.get_all-remove m n k)

  -- The names of the literal list, compared as texts.
  standard-names :
      (ts : List Str) (k : HeaderName)
      → all (all is_name_char) ts ≡ true
      → names (map name_from_static ts) k ≡ any (λ t. str_eq t (as_str k)) ts
  standard-names [] k e = refl
  standard-names (t ∷ ts) k e = ground (arith, l.as_str-name_from_static t, standard-names ts k)

  -- Whether a name is one of the eight of the standard set.
  unfoldable pub is_hop_by_hop : HeaderName → Bool
  is_hop_by_hop k = any (λ t. str_eq t (as_str k)) hop_by_hop

  names-hop_by_hop : (k : HeaderName) → names (map name_from_static hop_by_hop) k ≡ is_hop_by_hop k
  unfolding is_hop_by_hop
  names-hop_by_hop k = standard-names hop_by_hop k refl

  -- Stripping removes a header exactly if it is one of the eight of the standard set or is declared
  -- by the first `Connection` header of the map, and leaves every other header with all its values.
  pub get_all-strip_hop_by_hop :
      (m : HeaderMap) (k : HeaderName)
      → get_all (strip_hop_by_hop h m) k
        ≡ (if names (declared h m) k || is_hop_by_hop k then [] else get_all m k)
  unfolding strip_hop_by_hop
  get_all-strip_hop_by_hop m k =
      rw
        (
          get_all-remove_all (map name_from_static hop_by_hop) (remove_all h m (declared h m)) k,
          get_all-remove_all (declared h m) m k,
          names-hop_by_hop k,
        )
        (if_or (names (declared h m) k) (is_hop_by_hop k) [] (get_all m k))

  -- The configured names that are header names.
  unfoldable pub configured : List Str → List HeaderName
  configured [] = []
  configured (s ∷ rest) = elim (name_from_bytes s) [
    | ok n ↦ n ∷ configured rest
    | err e ↦ configured rest
  ]

  -- A response loses exactly the headers whose names are configured; configured texts that are no
  -- header names have no effect.
  pub get_all-strip_response_headers :
      (ts : List Str) (m : HeaderMap) (k : HeaderName)
      → get_all (strip_response_headers h m ts) k
        ≡ (if names (configured ts) k then [] else get_all m k)
  unfolding strip_response_headers configured
  get_all-strip_response_headers [] m k = refl
  get_all-strip_response_headers (t ∷ ts) m k = elim (Except-cases (name_from_bytes t)) [
    | inl (n, e) ↦
        rw (e, strip_response_headers, configured)
          (ground
            (arith, get_all-strip_response_headers ts (h.remove m n) k, l.get_all-remove m n k))
    | inr (e', e) ↦
        rw (e, strip_response_headers, configured) (get_all-strip_response_headers ts m k)
  ]

  -- A literal outside the standard set names no hop-by-hop header.
  pub static-is_hop_by_hop :
      (x : Str) (k : HeaderName)
      → all is_name_char x ≡ true
      → all (λ t. not (str_eq x t)) hop_by_hop ≡ true
      → is_hop_by_hop k ≡ true
      → name_eq h (name_from_static x) k ≡ false
  unfolding is_hop_by_hop
  static-is_hop_by_hop x k c b a =
      rw (l.as_str-name_from_static x c) (other_text x (as_str k) hop_by_hop a b)
