-- ===== src/Tests/World.antt =====
-- The parameters of the model as small concrete functions, with the laws proved of them.
use palisade.Prelude.{
  ℕ, zero, suc, ◌≤◌, ◌≡◌, refl, ◌∙◌, sym, ap, Bool, true, false, ◌&&◌, ◌||◌, not, Option, none,
  some, List, [], ◌∷◌, ◌++◌, arith, leb, ◌==◌, length, if◌then◌else◌, Except, ok, err, Bool-cases,
  inl, inr, ok-injective, leb→le,
}
use palisade.Prelude.Int.{ℤ, pos}
use palisade.Text.{
  Str, codes, str_eq, str_eq_iff, is_empty, all, split, to_ascii_lowercase, decimal,
}
use palisade.Http.{Http, HttpLaws, head?}
use palisade.Net.{Net, NetLaws}
use palisade.Config.Runtime.{RegexLib, or_default}
use palisade.RateLimit.{Governor}
use palisade.Semaphore.{Semaphores, SemaphoreLaws}
use palisade.Metrics.{Prometheus, PrometheusLaws}
use palisade.Proxy.Crates.{Crates, CratesLaws}

abbrev Entries : Type 0
Entries = List (Str × Str)

unfoldable pub get_all : Entries → Str → List Str
get_all [] n = []
get_all ((k, v) ∷ m) n = if str_eq k n then v ∷ get_all m n else get_all m n

unfoldable pub remove : Entries → Str → Entries
remove [] n = []
remove ((k, v) ∷ m) n = if str_eq k n then remove m n else (k, v) ∷ remove m n

other : (a n k : Str) → str_eq a n ≡ false → str_eq a k ≡ true → str_eq n k ≡ false
other a n k e q = elim (Bool-cases (str_eq n k)) [
  | inl r ↦
      (let e' = sym e ∙ (str_eq_iff a n).1 ((str_eq_iff a k).0 q ∙ sym ((str_eq_iff n k).0 r)) in
        cc)
  | inr r ↦ r
]

get_all-remove :
    (m : Entries) (n k : Str) → get_all (remove m n) k ≡ (if str_eq n k then [] else get_all m k)
unfolding get_all remove
get_all-remove [] n k = ground arith
get_all-remove ((a, v) ∷ m) n k = elim (Bool-cases (str_eq a n)) [
  | inl e ↦
      rw (e, remove)
        (get_all-remove m n k
          ∙ rw ((str_eq_iff a n).0 e, get_all)
              (elim (Bool-cases (str_eq n k)) [ inl q ↦ rw q refl | inr q ↦ rw q refl ]))
  | inr e ↦
      rw (e, remove, get_all)
        (elim (Bool-cases (str_eq a k)) [
          | inl q ↦ rw (q, get_all-remove m n k, other a n k e q) refl
          | inr q ↦ rw q (get_all-remove m n k)
        ])
]

get_all-append :
    (m : Entries) (n k v : Str)
    → get_all (m ++ (n, v) ∷ []) k ≡ (if str_eq n k then get_all m k ++ v ∷ [] else get_all m k)
unfolding get_all
get_all-append [] n k v = ground arith
get_all-append ((a, u) ∷ m) n k v = ground (arith, get_all-append m n k v)

-- Visible ASCII and spaces.
unfoldable pub value_from_str : Str → Option Str
value_from_str s = if all (λ ch. leb 32 ch && leb ch 126) s then some s else none

value_from_str_self : (s v : Str) → value_from_str s ≡ some v → some v ≡ some s
unfolding value_from_str
value_from_str_self s v e = ground arith

-- A URI is its scheme, its authority and its path; a part that is missing is empty.
abbrev Uri : Type 0
Uri = Str × Str × Str

abbrev part : Str → Option Str
part [] = none
part (ch ∷ s) = some (ch ∷ s)

abbrev from_parts : List Str → Str → Uri
from_parts (s ∷ [] ∷ a ∷ rest) text = (s, a, codes "/")
from_parts _ text = ([], text, codes "/")

unfoldable pub build_uri : Str → Str → Str → Except Str Uri
build_uri s a p = if is_empty s || is_empty a then err (codes "empty part") else ok (s, a, p)

abbrev uri_eq : Uri → Uri → Bool
uri_eq u v = str_eq u.0 v.0 && str_eq u.1 v.1 && str_eq u.2 v.2

build_uri-parts :
    (s a p : Str) (u : Uri)
    → build_uri s a p ≡ ok u
    → (part u.0 ≡ some s) × (part u.1 ≡ some a) × (some u.2 ≡ some p)
unfolding build_uri
build_uri-parts [] a p u e = cc
build_uri-parts (x ∷ s) [] p u e = cc
build_uri-parts (x ∷ s) (y ∷ a) p u e = rw (← ok-injective _ refl e) (refl, refl, refl)

abbrev pub http : Http
http = record {
  HeaderName = Str;
  HeaderValue = Str;
  HeaderMap = Entries;
  Uri = Uri;
  Authority = Str;
  Scheme = Str;
  as_str = λ s. s;
  name_from_bytes = λ s. if is_empty s then err (codes "empty name") else ok (to_ascii_lowercase s);
  name_from_static = λ s. s;
  to_str = λ v. some v;
  value_from_str = value_from_str;
  value_from_static = λ s. s;
  value_from_number = decimal;
  headers_new = [];
  get_all = get_all;
  get = λ m n. head? (get_all m n);
  contains_key = λ m n. not (is_empty (get_all m n));
  insert = λ m n v. (n, v) ∷ remove m n;
  append = λ m n v. m ++ (n, v) ∷ [];
  remove = remove;
  parse_uri = λ s. ok (from_parts (split b'/' s) s);
  scheme = λ u. part u.0;
  authority = λ u. part u.1;
  path = λ u. u.2;
  query = λ u. none;
  path_and_query = λ u. some u.2;
  uri_text = λ u. u.0 ++ u.1 ++ u.2;
  uri_eq = uri_eq;
  scheme_text = λ s. s;
  authority_text = λ a. a;
  build_uri = build_uri;
}

insert_law :
    (m : Entries) (n k v : Str)
    → get_all ((n, v) ∷ remove m n) k ≡ (if str_eq n k then v ∷ [] else get_all m k)
unfolding get_all
insert_law m n k v = elim (Bool-cases (str_eq n k)) [
  | inl e ↦ rw (e, get_all) (ap (λ vs. v ∷ vs) (get_all-remove m n k ∙ rw e refl))
  | inr e ↦ rw (e, get_all) (get_all-remove m n k ∙ rw e refl)
]

str_eq_sym : (s t : Str) → str_eq s t ≡ str_eq t s
str_eq_sym s t = elim (Bool-cases (str_eq s t)) [
  | inl e ↦ rw ((str_eq_iff s t).0 e) refl
  | inr e ↦ elim (Bool-cases (str_eq t s)) [
    | inl q ↦ rw ((str_eq_iff t s).0 q) refl
    | inr q ↦ e ∙ sym q
  ]
]

uri_law : (u v : Uri) → uri_eq u v ≡ uri_eq v u
uri_law (a, b, d) (x, y, z) = rw (str_eq_sym a x, str_eq_sym b y, str_eq_sym d z) refl

pub http_laws : HttpLaws http
unfolding get_all
http_laws = record {
  as_str-name_from_static = λ s e. refl;
  as_str-injective = λ a b e. e;
  get-get_all = λ m n. refl;
  contains_key-get_all = λ m n. refl;
  get_all-new = λ n. refl;
  get_all-insert = insert_law;
  get_all-append = get_all-append;
  get_all-remove = get_all-remove;
  to_str-value_from_str = value_from_str_self;
  to_str-value_from_number = λ n. refl;
  uri_eq_sym = uri_law;
  build_uri-parts = λ s a p u e. (let (x, y, z) = build_uri-parts s a p u e in (x, y));
  build_uri-path = λ s a p o u q e. (let (x, y, z) = build_uri-parts s a p u e in z);
}

abbrev pub net : Net
net = record {
  SocketAddr = Str;
  IpAddr = Str;
  parse_addr = λ s. ok s;
  ip = λ a. a;
  ip_text = λ a. a;
  addr_eq = str_eq;
}

pub net_laws : NetLaws net
net_laws = record { addr_eq_iff = str_eq_iff }

-- A pattern is its text, and replaces every body that is not empty.
abbrev pub regex : RegexLib
regex = record {
  Regex = Str;
  escape = λ s. s;
  compile = λ s. ok s;
  replace_all = λ r text replacement. if is_empty text then [] else replacement;
}

-- The limiter is what is left of its burst.
abbrev pub governor : Governor net
governor = record {
  Limiter = ℕ;
  dashmap = λ rps burst. burst;
  check_key =
      λ limiter ip now. elim limiter [ zero ↦ (zero, err 1_500_000_000) | suc n ↦ (n, ok tt) ];
  retain = λ limiter now. limiter;
  len = λ limiter. 1;
}

abbrev pub crates : Crates
crates = record {
  http = http;
  net = net;
  regex = regex;
  governor = governor;
  parse_query = λ q. (q, []) ∷ [];
  Incoming = List ℕ;
  collect_limited =
      λ b limit. if leb (length b) limit then ok b else err (codes "length limit exceeded");
  from_utf8_lossy = λ b. b;
}

collect_law :
    (b : List ℕ) (limit : ℕ) (bytes : List ℕ)
    → (if leb (length b) limit then ok b else err (codes "length limit exceeded")) ≡ ok bytes
    → length bytes ≤ limit
collect_law b limit bytes e = elim (Bool-cases (leb (length b) limit)) [
  | inl q ↦ rw (← ok-injective _ refl (rw q at e)) (leb→le (length b) limit q)
  | inr q ↦ (let e' = rw q at e in cc)
]

pub crates_laws : CratesLaws crates
crates_laws = record {
  http_laws = http_laws;
  net_laws = net_laws;
  length-collect_limited = collect_law;
}

abbrev pub semaphores : Semaphores
semaphores = record {
  Semaphore = ℕ;
  sem_new = λ n. n;
  available_permits = λ n. n;
  try_acquire = λ n. elim n [ zero ↦ none | suc m ↦ some m ];
  release = suc;
}

acquire_none : (n : ℕ) → semaphores.try_acquire n ≡ none → n ≡ 0
acquire_none zero e = refl
acquire_none (suc n) e = cc

acquire_some : (n m : ℕ) → semaphores.try_acquire n ≡ some m → n ≡ suc m
acquire_some zero m e = cc
acquire_some (suc n) m e = cc

pub semaphore_laws : SemaphoreLaws semaphores
semaphore_laws = record {
  available-new = λ n. refl;
  try_acquire-none = acquire_none;
  try_acquire-some = acquire_some;
  available-release = λ n. refl;
}

abbrev pub prometheus : Prometheus
prometheus = record {
  Counter = ℕ;
  counter_new = 0;
  inc = suc;
  count = λ n. n;
  Gauge = ℤ;
  gauge_new = pos 0;
  set = λ g v. v;
  value = λ g. g;
  Histogram = List ℕ;
  histogram_new = [];
  observe = λ g d. d ∷ g;
  observations = length;
  StatusFamily = ℕ → Option ℕ;
  status_family_new = λ l. none;
  member = λ f. f;
  update = λ f l g k. if l == k then some (g (or_default 0 (f l))) else f k;
  UpstreamFamily = Str → Option ℤ;
  upstream_family_new = λ l. none;
  gauge_member = λ f. f;
  gauge_update = λ f l g k. if str_eq l k then some (g (or_default (pos 0) (f l))) else f k;
}

pub prometheus_laws : PrometheusLaws prometheus
prometheus_laws = record {
  count-inc = λ m. refl;
  value-set = λ g v. refl;
  observations-observe = λ g d. refl;
  member-update = λ f l k g. refl;
  gauge_member-update = λ f l k g. refl;
}
