-- ===== src/Proxy/Framing.antt =====
-- The length that a response declares, against its body.
use mathlib.Core.Option.{some-injective}
use palisade.Prelude.{ℕ, ◌<◌, ◌^◌, ◌≡◌, ap, sym, ◌∙◌, Option, none, some, [], ◌∷◌, ok, inl, inr}
use palisade.Text.{Str, codes, str_len, parse_u64-decimal}
use palisade.Http.{Http, HttpLaws}
use palisade.Headers.{content_length}
use palisade.Error.{Response}
use palisade.Proxy.Crates.{Crates, CratesLaws}
use palisade.Proxy.Screen.{Runtime}
use palisade.Proxy.Reply.{BoxBody, streamed, full, reply}
use palisade.Proxy.Answer.{reply-body}

-- A length that is the only `Content-Length` is read back.
content_length-number :
    (h : Http) (l : HttpLaws h) (m : h.HeaderMap) (n : ℕ)
    → h.get_all m (h.name_from_static (codes "content-length")) ≡ h.value_from_number n ∷ []
    → n < 2 ^ 64
    → content_length h m ≡ some n
unfolding content_length
content_length-number h l m n e b =
    rw
      (
        l.get-get_all m (h.name_from_static (codes "content-length")),
        e,
        l.to_str-value_from_number n,
      )
      (parse_u64-decimal n b)

abbrev full_text : {c : Crates} → BoxBody c → Option Str
full_text (full s) = some s
full_text (streamed b) = none

-- A masked response has exactly one `Content-Length`, whatever the backend sent, and the code that
-- checks lengths reads it back as the length of the body, if the body is shorter than 2 ^ 64 bytes.
pub reply-content_length :
    (c : Crates) (l : CratesLaws c) (config : Runtime c) (request_id : Str) (seq : ℕ)
    (resp : Response c.http c.Incoming) (out : Response c.http (BoxBody c)) (text : Str)
    → reply c config request_id seq resp ≡ ok out
    → out.body ≡ full text
    → str_len text < 2 ^ 64
    → ((v : c.http.HeaderValue) × (c.http.get_all out.headers
            (c.http.name_from_static (codes "content-length"))
          ≡ v ∷ []))
      × (content_length c.http out.headers ≡ some (str_len text))
reply-content_length c l config request_id seq resp out text e t b =
    elim (reply-body c l config request_id seq resp out e).1 [
      | inl (q, s) ↦ (let z = ap full_text (sym t ∙ s) in cc)
      | inr (q, (bytes, g, n, s, h)) ↦
          (let same = some-injective _ _ (ap full_text (sym t ∙ s)) in
            (
              (_, h),
              content_length-number c.http l.http_laws out.headers (str_len text) (rw same h) b,
            ))
    ]
