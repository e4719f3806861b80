-- ===== src/Scope/Url.antt =====
-- urllib.parse.urlsplit as canonical.py and the orchestrator use it, and the functions of
-- src/bbagent/scope/canonical.py that take a URL or any target.
use Prim.Native.String.{◌∷◌ as ◌∷ˢ◌}
use bugbounty_agent.Base.{
  Char, code, String, Bool, false, not, ◌&&◌, ◌||◌, Option, none, some, ◌==◌, leb, if◌then◌else◌,
  Result, ok, err,
}
use bugbounty_agent.Base.Results.{◌>>=◌, ◌>>◌, guard, expect}
use bugbounty_agent.Base.Text
use bugbounty_agent.Base.Text.{◌<>◌, is, all_chars, any_char}
use bugbounty_agent.Scope.Libs.{Libs}
use bugbounty_agent.Scope.Models.{Kind, domain, ip, url}
use bugbounty_agent.Scope.Canonical.{
  Error, empty_target, unparseable_url, no_scheme, unsupported_scheme, no_host, is_space, lower,
  is_ip_literal, canonical_ip, canonical_host,
}

-- What urlsplit returns, less the fragment.
pub record SplitResult : Type 0 where
  pub scheme : String
  pub netloc : String
  pub path : String
  pub query : String

-- Characters that urlsplit strips on the left, and those that it removes anywhere.
abbrev is_control : Char → Bool
is_control c = leb (code c) 32

abbrev is_unsafe : Char → Bool
is_unsafe c = is 9 c || is 10 c || is 13 c

remove_unsafe : String → String
remove_unsafe String.[] = String.[]
remove_unsafe (c ∷ˢ s) = let rest = remove_unsafe s in if is_unsafe c then rest else c ∷ˢ rest

is_scheme_char : Char → Bool
is_scheme_char c =
    (leb b'a' (code c) && leb (code c) b'z')
    || (leb b'A' (code c) && leb (code c) b'Z')
    || (leb b'0' (code c) && leb (code c) b'9')
    || is b'+' c
    || is b'-' c
    || is b'.' c

starts_alpha : String → Bool
starts_alpha String.[] = false
starts_alpha (c ∷ˢ s) =
    (leb b'a' (code c) && leb (code c) b'z') || (leb b'A' (code c) && leb (code c) b'Z')

-- Whether the text before the first colon is a scheme.
unfoldable pub has_scheme : String → Bool
unfolding is_scheme_char starts_alpha Text.before
has_scheme s =
    any_char (is b':') s && starts_alpha s && all_chars is_scheme_char (Text.before (is b':') s)

abbrev ends_netloc : Char → Bool
ends_netloc c = is b'/' c || is b'?' c || is b'#' c

-- s from its first character that ends a netloc on
from_delimiter : String → String
from_delimiter String.[] = String.[]
from_delimiter (c ∷ˢ s) = let rest = from_delimiter s in if ends_netloc c then c ∷ˢ s else rest

-- Brackets in a netloc come in pairs.
brackets_paired : String → Bool
brackets_paired s =
    (any_char (is b'[') s && any_char (is b']') s)
    || (not (any_char (is b'[') s) && not (any_char (is b']') s))

-- The hostname attribute before lower(): userinfo and port are dropped.
unfoldable pub hostname_of : String → String
unfolding Text.after_last Text.before Text.after
hostname_of netloc =
    let hostinfo = Text.after_last (is b'@') netloc in
    if any_char (is b'[') hostinfo
    then Text.before (is b']') (Text.after (is b'[') hostinfo)
    else Text.before (is b':') hostinfo

module _ (L : Libs) where
  -- The scheme, in lower case, and the text behind it.
  unfoldable pub split_scheme : String → String × String
  unfolding has_scheme Text.before Text.after
  split_scheme s =
      if has_scheme s then (lower L (Text.before (is b':') s), Text.after (is b':') s) else ("", s)

  unfoldable pub split_path : String → String → String → SplitResult
  unfolding Text.before Text.after
  split_path scheme netloc s =
      let s' = Text.before (is b'#') s in
      record {
        scheme = scheme;
        netloc = netloc;
        path = Text.before (is b'?') s';
        query = Text.after (is b'?') s';
      }

  -- urlsplit(url); none is its ValueError
  unfoldable pub urlsplit : String → Option SplitResult
  unfolding remove_unsafe split_scheme split_path Text.lstrip Text.starts_with Text.drop Text.before
      from_delimiter brackets_paired
  urlsplit given =
      let url = remove_unsafe (Text.lstrip is_control given) in
      let (scheme, rest) = split_scheme url in
      if Text.starts_with rest "//"
      then (let behind = Text.drop 2 rest in
          let netloc = Text.before ends_netloc behind in
          if brackets_paired netloc && L.netloc_ok netloc
          then some (split_path scheme netloc (from_delimiter behind))
          else none)
      else some (split_path scheme "" rest)

  -- parts.hostname: lower case up to a zone index; empty for None
  unfoldable pub hostname : SplitResult → String
  unfolding hostname_of Text.before Text.after
  hostname parts =
      let host = hostname_of parts.netloc in
      if any_char (is b'%') host
      then lower L (Text.before (is b'%') host) <> "%" <> Text.after (is b'%') host
      else lower L host

  unfoldable pub host_from_url : String → Result Error String
  unfolding Text.strip is_space
  host_from_url given = do
    parts ← expect (unparseable_url given) (urlsplit (Text.strip (is_space L) given))
    guard (not (parts.scheme == "")) (no_scheme given)
    let scheme = lower L parts.scheme
    guard (scheme == "http" || scheme == "https") (unsupported_scheme parts.scheme)
    let host = hostname parts
    guard (not (host == "")) (no_host given)
    canonical_host L host

  unfoldable pub canonical_target : String → Result Error (Kind × String)
  unfolding Text.strip is_space Text.has
  canonical_target value =
      let s = Text.strip (is_space L) value in
      if s == ""
      then err empty_target
      else if Text.has s "://"
      then (do host ← host_from_url s; ok (url, host))
      else if is_ip_literal L s
      then (do addr ← canonical_ip L s; ok (ip, addr))
      else (do host ← canonical_host L s; ok (domain, host))
