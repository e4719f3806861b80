-- ===== src/Scope/Ip.antt =====
-- IP addresses and networks as numbers, the classes of addresses that Python's ipaddress module
-- documents, and the hard deny of src/bbagent/scope/ip_rules.py. An IPv4-mapped IPv6 address is
-- classified by its own ranges, as in the releases of Python that do not look at the address inside.
use bugbounty_agent.Base.{
  ℕ, ◌+◌, ◌-◌, ◌*◌, ◌/◌, ◌^◌, Bool, false, List, [], ◌∷◌, Option, none, some, eqb, any,
  if◌then◌else◌,
}

-- IPv4Address and IPv6Address, by their integer.
pub data Addr : Type 0 where
  v4 : ℕ → Addr
  v6 : ℕ → Addr

-- IPv4Network and IPv6Network: an address of the network and the length of its prefix.
pub record Net : Type 0 where
  pub base : Addr
  pub prefix : ℕ

abbrev pub quad : ℕ → ℕ → ℕ → ℕ → ℕ
quad a b c d = ((a * 256 + b) * 256 + c) * 256 + d

-- addr.version == net.version and addr in net
unfoldable pub same_prefix : Addr → Addr → ℕ → Bool
same_prefix (v4 a) (v4 b) p = eqb (a / 2 ^ (32 - p)) (b / 2 ^ (32 - p))
same_prefix (v6 a) (v6 b) p = eqb (a / 2 ^ (128 - p)) (b / 2 ^ (128 - p))
same_prefix (v4 a) (v6 b) p = false
same_prefix (v6 a) (v4 b) p = false

unfoldable pub covers : Net → Addr → Bool
unfolding same_prefix
covers net addr = same_prefix addr net.base net.prefix

abbrev pub v4_net : ℕ → ℕ → Net
v4_net base prefix = record { base = v4 base; prefix = prefix }

abbrev pub v6_net : ℕ → ℕ → Net
v6_net base prefix = record { base = v6 base; prefix = prefix }

-- 100.64.0.0/10, 169.254.169.254/32 and fd00:ec2::254/128
abbrev pub extra_deny : List Net
extra_deny =
    v4_net (quad 100 64 0 0) 10
    ∷ v4_net (quad 169 254 169 254) 32
    ∷ v6_net (0xfd000ec2 * 2 ^ 96 + 0x254) 128
    ∷ []

unfoldable pub is_loopback : Addr → Bool
unfolding covers
is_loopback (v4 n) = covers (v4_net (quad 127 0 0 0) 8) (v4 n)
is_loopback (v6 n) = eqb n 1

unfoldable pub is_link_local : Addr → Bool
unfolding covers
is_link_local (v4 n) = covers (v4_net (quad 169 254 0 0) 16) (v4 n)
is_link_local (v6 n) = covers (v6_net (0xfe80 * 2 ^ 112) 10) (v6 n)

unfoldable pub is_unspecified : Addr → Bool
is_unspecified (v4 n) = eqb n 0
is_unspecified (v6 n) = eqb n 0

unfoldable pub is_multicast : Addr → Bool
unfolding covers
is_multicast (v4 n) = covers (v4_net (quad 224 0 0 0) 4) (v4 n)
is_multicast (v6 n) = covers (v6_net (0xff00 * 2 ^ 112) 8) (v6 n)

-- The first sixteen bits and the prefix lengths of the reserved IPv6 networks.
abbrev reserved_v6 : List Net
reserved_v6 =
    v6_net 0 8
    ∷ v6_net (0x0100 * 2 ^ 112) 8
    ∷ v6_net (0x0200 * 2 ^ 112) 7
    ∷ v6_net (0x0400 * 2 ^ 112) 6
    ∷ v6_net (0x0800 * 2 ^ 112) 5
    ∷ v6_net (0x1000 * 2 ^ 112) 4
    ∷ v6_net (0x4000 * 2 ^ 112) 3
    ∷ v6_net (0x6000 * 2 ^ 112) 3
    ∷ v6_net (0x8000 * 2 ^ 112) 3
    ∷ v6_net (0xa000 * 2 ^ 112) 3
    ∷ v6_net (0xc000 * 2 ^ 112) 3
    ∷ v6_net (0xe000 * 2 ^ 112) 4
    ∷ v6_net (0xf000 * 2 ^ 112) 5
    ∷ v6_net (0xf800 * 2 ^ 112) 6
    ∷ v6_net (0xfe00 * 2 ^ 112) 9
    ∷ []

unfoldable pub is_reserved : Addr → Bool
unfolding covers any
is_reserved (v4 n) = covers (v4_net (quad 240 0 0 0) 4) (v4 n)
is_reserved (v6 n) = any (λ net. covers net (v6 n)) reserved_v6

-- The texts that private_deny_reason returns.
pub data DenyReason : Type 0 where
  unparseable : DenyReason
  internal_range : Net → DenyReason
  loopback link_local unspecified multicast reserved private : DenyReason

-- The loop over _EXTRA_DENY, and what is done after it.
unfoldable pub extra_reason : Addr → List Net → Option DenyReason → Option DenyReason
unfolding covers
extra_reason addr [] rest = rest
extra_reason addr (net ∷ nets) rest =
    if covers net addr then some (internal_range net) else extra_reason addr nets rest

-- The tests on the class of the address; the last is a table that differs between versions.
unfoldable pub class_reason : Bool → Addr → Option DenyReason
class_reason is_private addr =
    if is_loopback addr
    then some loopback
    else if is_link_local addr
    then some link_local
    else if is_unspecified addr
    then some unspecified
    else if is_multicast addr
    then some multicast
    else if is_reserved addr
    then some reserved
    else if is_private
    then some private
    else none
