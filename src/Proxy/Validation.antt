-- ===== src/Proxy/Validation.antt =====
-- python/propagul/mesh/proxy.py: `_validate_backend_url`. The host of a URL, and what the module
-- `ipaddress` says of a host, are arguments.
use propagul.Prelude.{
  ◌≡◌, ◌≢◌, refl, Bool, true, ◌||◌, Option, none, some, arith, if◌then◌else◌, ite, ltb, Text, codes,
  dec_text, length,
}

-- an address: `is_loopback`, `is_private`, `is_link_local`, and whether it is an IPv4 address of
-- 100.64.0.0/10
pub record Address : Type 0 where
  pub is_loopback : Bool
  pub is_private : Bool
  pub is_link_local : Bool
  pub is_cgnat : Bool

-- `urlparse(url).hostname or ""`, none where it raises ValueError; and `ip_address(host)`, none where
-- that does
pub record Network : Type 0 where
  pub hostname : Text → Option Text
  pub ip_address : Text → Option Address

-- returned, or one of the three errors
pub data Verdict : Type 0 where
  accepted : Verdict
  unknown_host : Verdict
  link_local : Verdict
  not_local : Verdict

abbrev pub localhost : Text
localhost = codes "localhost"

unfoldable pub validate_address : Option Address → Verdict
validate_address none = unknown_host
validate_address (some a) =
    if a.is_loopback || a.is_private
    then accepted
    else if a.is_link_local
    then link_local
    else if a.is_cgnat
    then accepted
    else not_local

unfoldable pub validate_host : Network → Option Text → Verdict
validate_host network none = unknown_host
validate_host network (some host) =
    ite (dec_text host localhost) accepted (validate_address (network.ip_address host))

unfoldable pub validate_backend_url : Network → Text → Verdict
validate_backend_url network url =
    if ltb 0 (length url) then validate_host network (network.hostname url) else accepted

never-link_local :
    (o : Option Address)
    → ((b : Address) → o ≡ some b → b.is_link_local ≡ true → b.is_private ≡ true)
    → validate_address o ≢ link_local
unfolding validate_address
never-link_local none private = λ e. ground (arith, e)
never-link_local (some b) private = λ e. ground (arith, e, private b refl)

-- If every link-local address counts as private, as it does in Python's ipaddress, then no URL is
-- refused as link-local, and a URL whose host is a link-local address is accepted.
pub validate_backend_url-link_local :
    (network : Network) (url other host : Text) (a : Address)
    → ((h : Text) (b : Address)
        → network.ip_address h ≡ some b
        → b.is_link_local ≡ true
        → b.is_private ≡ true)
    → network.hostname url ≡ some host
    → network.ip_address host ≡ some a
    → a.is_link_local ≡ true
    → (validate_backend_url network other ≢ link_local)
      × (validate_backend_url network url ≡ accepted)
unfolding validate_backend_url validate_host validate_address
validate_backend_url-link_local network url other host a private at is ll =
    (go (network.hostname other), ground (arith, at, is, ll, private host a))
  where
    go :
        (o : Option Text)
        → (if ltb 0 (length other) then validate_host network o else accepted) ≢ link_local
    go none = λ e. ground (arith, e)
    go (some h) = λ e. ground (arith, e, never-link_local (network.ip_address h) (private h))
