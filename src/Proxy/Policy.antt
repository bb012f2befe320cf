-- ===== src/Proxy/Policy.antt =====
-- Which requests the block rules let through.
use palisade.Prelude.{
  ◌≡◌, refl, ◌∙◌, Bool, true, false, ◌&&◌, not, Option, none, some, List, [], ◌∷◌, arith, ok, err,
  is_ok, ◌>>◌, Option-cases, inl, inr,
}
use palisade.Text.{Str, any, str_eq}
use palisade.Error.{Result}
use palisade.Config.Runtime.{or_default}
use palisade.Proxy.Crates.{Crates}
use palisade.Proxy.Screen.{Request, Runtime, find, check_headers, check_params, inspect_request}

find-any :
    {A : Type 0} (p : A → Bool) (xs : List A)
    → (find p xs ≡ none → any p xs ≡ false) × ((a : A) → find p xs ≡ some a → any p xs ≡ true)
find-any p [] = (λ e. refl, λ a e. cc)
find-any p (x ∷ xs) =
    (λ e. ground (arith, (find-any p xs).0), λ a e. ground (arith, (find-any p xs).1 a))

and_ok : (a b : Result Unit) → is_ok (a >> b) ≡ (is_ok a && is_ok b)
and_ok (ok u) b = refl
and_ok (err e) b = refl

module _ (c : Crates) where
  open c use {http.{HeaderMap, HeaderName, contains_key, query}}

  -- A pair of the query whose key is a blocked parameter.
  abbrev pub has_blocked_key : List Str → Str × Str → Bool
  has_blocked_key blocked pair = any (λ param. str_eq param pair.0) blocked

  check_headers-any :
      (blocked : List HeaderName) (m : HeaderMap)
      → is_ok (check_headers c blocked m) ≡ not (any (contains_key m) blocked)
  unfolding check_headers
  check_headers-any blocked m = elim (Option-cases (find (contains_key m) blocked)) [
    | inl e ↦ rw (e, check_headers, (find-any (contains_key m) blocked).0 e)
    | inr (a, e) ↦ rw (e, check_headers, (find-any (contains_key m) blocked).1 a e)
  ]

  check_params-any :
      (blocked : List Str) (q : Option Str)
      → is_ok (check_params c blocked q)
        ≡ not (any (has_blocked_key blocked) (c.parse_query (or_default [] q)))
  unfolding check_params
  check_params-any blocked q =
      let pairs = c.parse_query (or_default [] q) in
      elim (Option-cases (find (has_blocked_key blocked) pairs)) [
        | inl e ↦ rw (e, check_params, (find-any (has_blocked_key blocked) pairs).0 e)
        | inr (a, e) ↦ rw (e, check_params, (find-any (has_blocked_key blocked) pairs).1 a e)
      ]

  -- The policy passes a request, whatever its method, exactly if it has no blocked header and no key
  -- of its decoded query is a blocked parameter.
  pub inspect_request-exact :
      {B : Type 0} (req : Request c B) (config : Runtime c)
      → is_ok (inspect_request c req config) ≡ (
          not (any (contains_key req.headers) config.blocked_headers)
          && not (
              any
                (has_blocked_key config.blocked_params)
                (c.parse_query (or_default [] (query req.uri)))))
  unfolding inspect_request
  inspect_request-exact req config =
      and_ok (check_headers c config.blocked_headers req.headers)
        (check_params c config.blocked_params (query req.uri))
      ∙ rw
          (
            check_headers-any config.blocked_headers req.headers,
            check_params-any config.blocked_params (query req.uri),
          )
          refl
