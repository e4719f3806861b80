-- ===== src/Scope/Libs/Denied.antt =====
-- The addresses of src/bbagent/scope/ip_rules.py as ranges of numbers.
use bugbounty_agent.Base.{
  ℕ, ◌+◌, ◌*◌, ◌^◌, ◌≤◌, ◌<◌, ◌≡◌, ◌≢◌, ◌↔◌, ◌⊎◌, inl, inr, String, Bool, true, false, Option, none,
  some, arith, Option-cases, any,
}
use bugbounty_agent.Scope.Ip.{
  Addr, v4, v6, quad, covers, DenyReason, extra_deny, extra_reason, class_reason, is_loopback,
  is_link_local, is_unspecified, is_multicast, is_reserved,
}
use bugbounty_agent.Scope.Libs.{Libs, private_deny_reason}

-- from a.b.c.d up to the end of its network of 2 ^ width addresses
abbrev pub IsWithin : ℕ → ℕ → ℕ → Type 0
IsWithin base width n = (base ≤ n) × (n < base + 2 ^ width)

-- What is denied whatever the table of private networks says: in IPv4 loopback, link-local, carrier
-- NAT, the unspecified address, multicast and reserved; in IPv6 all but 2000::/3, fc00::/7 less the
-- metadata address, and fec0::/10.
abbrev pub IsInternal : Addr → Type 0
IsInternal (v4 n) =
    IsWithin (quad 127 0 0 0) 24 n
    ⊎ IsWithin (quad 169 254 0 0) 16 n
    ⊎ IsWithin (quad 100 64 0 0) 22 n
    ⊎ (n ≡ 0)
    ⊎ (quad 224 0 0 0 ≤ n)
IsInternal (v6 n) =
    (n < 0x2000 * 2 ^ 112)
    ⊎ ((0x4000 * 2 ^ 112 ≤ n) × (n < 0xfc00 * 2 ^ 112))
    ⊎ ((0xfe00 * 2 ^ 112 ≤ n) × (n < 0xfec0 * 2 ^ 112))
    ⊎ (0xff00 * 2 ^ 112 ≤ n)
    ⊎ (n ≡ 0xfd000ec2 * 2 ^ 96 + 0x254)

-- The integer of an address has 32 or 128 bits.
abbrev pub IsAddr : Addr → Type 0
IsAddr (v4 n) = n < 2 ^ 32
IsAddr (v6 n) = n < 2 ^ 128

is_reserved-v6_iff :
    (n : ℕ)
    → (is_reserved (v6 n) ≡ true) ↔ (
        (n < 0x2000 * 2 ^ 112)
        ⊎ ((0x4000 * 2 ^ 112 ≤ n) × (n < 0xfc00 * 2 ^ 112))
        ⊎ ((0xfe00 * 2 ^ 112 ≤ n) × (n < 0xfe80 * 2 ^ 112)))
unfolding is_reserved covers any
is_reserved-v6_iff n = ground arith

class_reason-v4_iff :
    (b : Bool) (n : ℕ)
    → n < 2 ^ 32
    → (class_reason b (v4 n) ≡ none) ↔ (
        (b ≡ false)
        × ((n < quad 127 0 0 0) ⊎ (quad 128 0 0 0 ≤ n))
        × ((n < quad 169 254 0 0) ⊎ (quad 169 255 0 0 ≤ n))
        × (n ≢ 0)
        × (n < quad 224 0 0 0))
unfolding class_reason is_loopback is_link_local is_unspecified is_multicast is_reserved covers
class_reason-v4_iff b n h = ground arith

class_reason-v6_iff :
    (b : Bool) (n : ℕ)
    → n < 2 ^ 128
    → (class_reason b (v6 n) ≡ none) ↔ (
        (b ≡ false)
        × (is_reserved (v6 n) ≡ false)
        × ((n < 0xfe80 * 2 ^ 112) ⊎ (0xfec0 * 2 ^ 112 ≤ n))
        × (n < 0xff00 * 2 ^ 112))
unfolding class_reason is_loopback is_link_local is_unspecified is_multicast covers
class_reason-v6_iff b n h = ground (arith, is_reserved-v6_iff n)

reason : Bool → Addr → Option DenyReason
reason b addr = extra_reason addr extra_deny (class_reason b addr)

reason-none_iff :
    (b : Bool) (addr : Addr)
    → IsAddr addr
    → (reason b addr ≡ none) ↔ ((b ≡ false) × (¬ IsInternal addr))
unfolding reason extra_reason covers
reason-none_iff b (v4 n) h = ground (arith, class_reason-v4_iff b n h)
reason-none_iff b (v6 n) h = ground (arith, class_reason-v6_iff b n h, is_reserved-v6_iff n)

-- A text is not hard-denied exactly when it is an address that the table of private networks does
-- not hold and that lies in none of the internal ranges.
pub private_deny_reason-none_iff :
    (L : Libs) (text : String)
    → ((addr : Addr) → L.ip_address text ≡ some addr → IsAddr addr)
    → (private_deny_reason L text ≡ none) ↔ (
        (addr : Addr) × (L.ip_address text ≡ some addr)
        × (L.is_private addr ≡ false)
        × (¬ IsInternal addr))
unfolding private_deny_reason reason
private_deny_reason-none_iff L text bits = elim (Option-cases (L.ip_address text)) [
  | inl bad ↦ (λ h. absurd (ground arith), λ (addr, parsed, _, _). cc (bad, parsed))
  | inr (addr, parsed) ↦
      let step = reason-none_iff (L.is_private addr) addr (bits addr parsed) in
      (
        λ h. (addr, parsed, ground (arith, step), (step.0 (ground arith)).1),
        λ (other, same, public, outside).
            let one : addr ≡ other = cc (parsed, same) in ground (arith, step, one),
      )
]
