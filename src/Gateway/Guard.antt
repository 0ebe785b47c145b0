-- ===== src/Gateway/Guard.antt =====
-- `_public_url_guard` of gateway/src/basedai_gateway/server.py: which URLs the gateway dials. Parsing
-- the URL, resolving its host and classifying an address are parameters.
use mathlib.Core.Option.{some-injective}
use based_ai.Prelude.{
  ap, ◌⊎◌, ℕ, ◌≡◌, ◌↔◌, refl, Bool, true, false, ◌||◌, Option, none, some, String, List, [], ◌∷◌,
  arith, All, Bool-cases, inl, inr, if◌then◌else◌, nat_beq,
}
use based_ai.Prelude.Eq.{◌==◌, nat_eq, list_eq}
use based_ai.Prelude.Result.{Result, ok, ◌>>=◌, >>=-eq-ok, ok-injective}
use based_ai.Prelude.Text.{Str, codes}

-- What `ipaddress` says of an address.
pub record Address : Type 0 where
  pub is_private : Bool
  pub is_loopback : Bool
  pub is_link_local : Bool
  pub is_multicast : Bool
  pub is_reserved : Bool
  pub is_unspecified : Bool

-- `urlparse(url)`: the port raises where it is no number or out of range.
pub record Parsed : Type 0 where
  pub scheme : Str
  pub hostname : Option Str
  pub port : Result (Option ℕ)

-- `getaddrinfo`: the addresses, or `none` where the host does not resolve; other errors are raised.
abbrev pub Resolver : Type 0
Resolver = Str → ℕ → Result (Option (List Address))

abbrev pub is_blocked : Address → Bool
is_blocked ip =
    ip.is_private || ip.is_loopback || ip.is_link_local || ip.is_multicast || ip.is_reserved
    || ip.is_unspecified

-- The loop over the addresses.
unfoldable pub judge_addresses : List Address → Option String
judge_addresses [] = none
judge_addresses (ip ∷ ips) =
    let rest = judge_addresses ips in
    if is_blocked ip then some "url resolves to non-public address" else rest

-- `parsed.port or (443 if parsed.scheme == "https" else 80)`
abbrev pub default_port : Str → ℕ
default_port scheme = if scheme == codes "https" then 443 else 80

abbrev pub port_or : Str → Option ℕ → ℕ
port_or scheme none = default_port scheme
port_or scheme (some n) = if nat_beq n 0 then default_port scheme else n

abbrev judge_resolved : Option (List Address) → Option String
judge_resolved none = some "url host does not resolve"
judge_resolved (some ips) = judge_addresses ips

abbrev judge_host : Resolver → Parsed → Option Str → Result (Option String)
judge_host resolve url none = ok (some "url has no host")
judge_host resolve url (some []) = ok (some "url has no host")
judge_host resolve url (some (c ∷ host)) = do
  port ← url.port
  resolved ← resolve (c ∷ host) (port_or url.scheme port)
  ok (judge_resolved resolved)

unfoldable pub public_url_guard : Resolver → Parsed → Result (Option String)
unfolding judge_addresses
public_url_guard resolve url =
    if url.scheme == codes "http" || url.scheme == codes "https"
    then judge_host resolve url url.hostname
    else ok (some "url scheme must be http or https")

-- An address with none of the six flags. It need not be a global one: 100.64.0.1 has none of them.
pub record IsClear (ip : Address) : Type 0 where
  pub no_private : ip.is_private ≡ false
  pub no_loopback : ip.is_loopback ≡ false
  pub no_link_local : ip.is_link_local ≡ false
  pub no_multicast : ip.is_multicast ≡ false
  pub no_reserved : ip.is_reserved ≡ false
  pub no_unspecified : ip.is_unspecified ≡ false

is_blocked_iff : (ip : Address) → (is_blocked ip ≡ false) ↔ IsClear ip
is_blocked_iff ip = (
  λ h. record {
    no_private = ground arith;
    no_loopback = ground arith;
    no_link_local = ground arith;
    no_multicast = ground arith;
    no_reserved = ground arith;
    no_unspecified = ground arith;
  },
  λ c. ground (
    arith, c.no_private, c.no_loopback, c.no_link_local, c.no_multicast, c.no_reserved,
    c.no_unspecified,
  ),
)

-- A web URL with a host none of whose addresses has one of the six flags.
pub record IsUnflagged (resolve : Resolver) (url : Parsed) : Type 0 where
  pub web : (url.scheme == codes "http" || url.scheme == codes "https") ≡ true
  pub host : Str
  pub named : url.hostname ≡ some host
  pub filled : (host == []) ≡ false
  pub given : Option ℕ
  pub port : url.port ≡ ok given
  pub addresses : List Address
  pub resolved : resolve host (port_or url.scheme given) ≡ ok (some addresses)
  pub unflagged : All IsClear addresses

judge_addresses_iff : (ips : List Address) → (judge_addresses ips ≡ none) ↔ All IsClear ips
unfolding judge_addresses
judge_addresses_iff [] = (λ h. tt, λ h. refl)
judge_addresses_iff (ip ∷ ips) =
    let (sound, complete) = judge_addresses_iff ips in
    (
      λ h. elim (Bool-cases (is_blocked ip)) [
        | inl blocked ↦ absurd (some_reason (rw blocked at h))
        | inr clear ↦ ((is_blocked_iff ip).0 clear, sound (rw clear at h))
      ],
      λ (clear, rest). rw ((is_blocked_iff ip).1 clear) (complete rest),
    )
  where
    some_reason : {message : String} → ◌≡◌ {A = Option String} (some message) none → ⊥
    some_reason h = cc

List-cases : (l : Str) → (l ≡ []) ⊎ ((c : ℕ) × (s : Str) × (l ≡ c ∷ s))
List-cases [] = inl refl
List-cases (c ∷ s) = inr (c, s, refl)

resolved_iff :
    (found : Option (List Address))
    → (judge_resolved found ≡ none) ↔ ((ips : List Address) × (found ≡ some ips) × All IsClear ips)
resolved_iff none = (λ h. cc, λ (ips, found, public). cc)
resolved_iff (some ips) = (
  λ h. (ips, refl, (judge_addresses_iff ips).0 h),
  λ (others, same, public). (judge_addresses_iff ips).1 (rw (some-injective _ _ same) public),
)

module _ (resolver : Resolver) (url : Parsed) where
  judge_host-IsUnflagged :
      (name : Option Str)
      → url.hostname ≡ name
      → (url.scheme == codes "http" || url.scheme == codes "https") ≡ true
      → judge_host resolver url name ≡ ok none
      → IsUnflagged resolver url
  judge_host-IsUnflagged none named web h = cc
  judge_host-IsUnflagged (some []) named web h = cc
  judge_host-IsUnflagged (some (c ∷ host)) named web h =
      let (given, port, rest) = >>=-eq-ok url.port _ h in
      let (found, resolved, last) =
        >>=-eq-ok (resolver (c ∷ host) (port_or url.scheme given)) _ rest in
      let (ips, found_ips, public) =
        (resolved_iff found).0 (ok-injective (judge_resolved found) none last) in
      record {
        web = web;
        host = c ∷ host;
        named = named;
        filled = refl;
        given = given;
        port = port;
        addresses = ips;
        resolved = rw (← found_ips) resolved;
        unflagged = public;
      }

  IsUnflagged-judge_host :
      (p : IsUnflagged resolver url) → judge_host resolver url (some p.host) ≡ ok none
  IsUnflagged-judge_host p = elim (List-cases p.host) [
    | inl empty ↦ absurd (ground (arith, p.filled, empty))
    | inr (c, host, full) ↦ rw full (
        rw p.port
          (rw (rw full at p.resolved) (ap ok ((judge_addresses_iff p.addresses).1 p.unflagged))))
  ]

  -- The guard passes a URL exactly when its scheme is http or https, it names a host, its port is
  -- readable, the host resolves, and no address of the host is private, loopback, link-local, multicast,
  -- reserved or unspecified.
  pub public_url_guard_iff : (public_url_guard resolver url ≡ ok none) ↔ IsUnflagged resolver url
  unfolding public_url_guard
  public_url_guard_iff = (
    λ h. elim (Bool-cases (url.scheme == codes "http" || url.scheme == codes "https")) [
      | inl web ↦ judge_host-IsUnflagged url.hostname refl web (rw web at h)
      | inr wrong ↦ absurd (ground arith)
    ],
    λ p. rw p.web (rw p.named (IsUnflagged-judge_host p)),
  )
