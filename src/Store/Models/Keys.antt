-- ===== src/Store/Models/Keys.antt =====
-- The identity keys of assets of src/bbagent/store/models.py.
use bugbounty_agent.Base.{◌≡◌, refl, sym, ap, ◌∙◌, String, Option, none, some, ◌==◌, if◌then◌else◌}
use bugbounty_agent.Base.Text
use bugbounty_agent.Base.Text.{◌<>◌, is}
use bugbounty_agent.Store.Models.{
  AssetKind, domain, subdomain, host, ip, port, service, url, endpoint, kind_value, key_of,
}

before-key_of : (k : AssetKind) (v : String) → Text.before (is b':') (key_of k v) ≡ kind_value k
unfolding key_of Text.before
before-key_of domain v = refl
before-key_of _ v = refl

after-key_of : (k : AssetKind) (v : String) → Text.after (is b':') (key_of k v) ≡ v
unfolding key_of Text.after
after-key_of domain v = refl
after-key_of _ v = refl

-- the kind that is spelled so
decode : String → Option AssetKind
decode s =
    if s == "domain"
    then some domain
    else if s == "subdomain"
    then some subdomain
    else if s == "host"
    then some host
    else if s == "ip"
    then some ip
    else if s == "port"
    then some port
    else if s == "service"
    then some service
    else if s == "url"
    then some url
    else if s == "endpoint"
    then some endpoint
    else none

decode-kind_value : (k : AssetKind) → decode (kind_value k) ≡ some k
unfolding decode kind_value
decode-kind_value domain = refl
decode-kind_value _ = refl

-- Two assets have one identity key only if they have the same kind and the same value.
pub key_of_inj : (k l : AssetKind) (v w : String) → key_of k v ≡ key_of l w → (k ≡ l) × (v ≡ w)
key_of_inj k l v w e =
    let kinds : kind_value k ≡ kind_value l =
      sym (before-key_of k v) ∙ ap (Text.before (is b':')) e ∙ before-key_of l w in
    let same : some k ≡ some l =
      sym (decode-kind_value k) ∙ ap decode kinds ∙ decode-kind_value l in
    (cc same, sym (after-key_of k v) ∙ ap (Text.after (is b':')) e ∙ after-key_of l w)
