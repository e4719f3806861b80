-- ===== src/Scope/Libs.antt =====
-- What the scope code takes from outside the repository: the text form of addresses and the table
-- of private networks (ipaddress), the Unicode tables (unicodedata, str), idna, the check that
-- urlsplit makes of a netloc, and the public suffix list (tldextract). The model's definitions take
-- such a record; a theorem that needs more of it than these types states it as a hypothesis.
pub mod Denied
use bugbounty_agent.Base.{Char, String, Bool, Option, none, some}
use bugbounty_agent.Scope.Ip.{Addr, Net, DenyReason, unparseable, extra_deny, extra_reason}
use bugbounty_agent.Scope.Ip.{class_reason}

pub record Libs : Type 0 where
  -- ipaddress.ip_address and ip_network(strict=False); none is a ValueError
  pub ip_address : String → Option Addr
  pub ip_network : String → Option Net
  pub str_addr : Addr → String
  pub str_net : Net → String
  pub is_private : Addr → Bool
  -- unicodedata.normalize("NFC", s), and s.lower() where s is not ASCII
  pub nfc : String → String
  pub lower : String → String
  -- c.isspace() and c.isalpha() where c is not ASCII; unicodedata.name
  pub is_space : Char → Bool
  pub is_alpha : Char → Bool
  pub char_name : Char → Option String
  -- idna.encode(label, uts46=True); none is an IDNAError
  pub idna_encode : String → Option String
  -- what urlsplit checks of a netloc beyond its brackets being paired
  pub netloc_ok : String → Bool
  -- tldextract: the registrable domain of a host, empty if it has none
  pub registered_domain : String → String

module _ (L : Libs) where
  -- private_deny_reason
  unfoldable pub private_deny_reason : String → Option DenyReason
  private_deny_reason ip = elim (L.ip_address ip) [
    | none ↦ some unparseable
    | some addr ↦ extra_reason addr extra_deny (class_reason (L.is_private addr) addr)
  ]

  -- is_denied_ip
  unfoldable pub is_denied_ip : String → Bool
  unfolding private_deny_reason
  is_denied_ip ip = elim (private_deny_reason ip) [ none ↦ Bool.false | some r ↦ Bool.true ]
