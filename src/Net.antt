-- ===== src/Net.antt =====
-- What the program uses of `std::net`: socket addresses, as a parameter of the definitions.
use palisade.Prelude.{◌≡◌, ◌↔◌, Bool, true, Except}
use palisade.Text.{Str}

pub record Net : Type 1 where
  pub SocketAddr : Type 0
  pub IpAddr : Type 0
  -- `str::parse`, with the text of its error; `ip`; `IpAddr`'s `Display`; `==`.
  pub parse_addr : Str → Except Str SocketAddr
  pub ip : SocketAddr → IpAddr
  pub ip_text : IpAddr → Str
  pub addr_eq : SocketAddr → SocketAddr → Bool

pub record NetLaws (n : Net) : Type 0 where
  pub addr_eq_iff : (a b : n.SocketAddr) → (n.addr_eq a b ≡ true) ↔ (a ≡ b)
