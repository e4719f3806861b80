-- ===== src/Scope/Canonical.antt =====
-- src/bbagent/scope/canonical.py: the canonical form of a target. An exception is an Error, which
-- stands for the text of its message. str.split, urlsplit and the other text functions are those
-- of CPython.
pub mod Labels
pub mod Newline
use Prim.Native.String.{◌∷◌ as ◌∷ˢ◌}
use bugbounty_agent.Base.{
  ◌+◌, Char, code, String, Bool, false, not, ◌&&◌, ◌||◌, none, some, List, [], ◌==◌, ltb, leb,
  length, set_add, is_some, if◌then◌else◌, Result, ok, err,
}
use bugbounty_agent.Base.Results.{◌>>=◌, ◌>>◌, guard, expect, traverse}
use bugbounty_agent.Base.Text
use bugbounty_agent.Base.Text.{◌<>◌, len, is, all_chars, any_char}
use bugbounty_agent.Scope.Libs.{Libs}

-- CanonicalizationError
pub data Error : Type 0 where
  empty_host empty_target : Error
  mixed_script not_ip illegal_characters empty_label : String → Error
  illegal_label idna_failure illegal_encoded host_too_long : String → Error
  unparseable_url no_scheme unsupported_scheme no_host : String → Error

unfoldable pub is_ascii : Char → Bool
is_ascii c = ltb (code c) 128

unfoldable pub is_lower_alnum : Char → Bool
is_lower_alnum c =
    (leb b'a' (code c) && leb (code c) b'z') || (leb b'0' (code c) && leb (code c) b'9')

-- [a-z0-9-]*[a-z0-9]
unfoldable pub label_rest : String → Bool
unfolding is_lower_alnum
label_rest String.[] = false
label_rest (c ∷ˢ String.[]) = is_lower_alnum c
label_rest (c ∷ˢ d ∷ˢ s) = (is_lower_alnum c || is b'-' c) && label_rest (d ∷ˢ s)

-- [a-z0-9](?:[a-z0-9-]{0,61}[a-z0-9])?
unfoldable pub label_body : String → Bool
unfolding label_rest
label_body String.[] = false
label_body (c ∷ˢ String.[]) = is_lower_alnum c
label_body (c ∷ˢ d ∷ˢ s) = is_lower_alnum c && label_rest (d ∷ˢ s) && leb (len s + 2) 63

-- The text without a newline at its end: `$` also matches just before one.
unfoldable pub chop_newline : String → String
chop_newline String.[] = String.[]
chop_newline (c ∷ˢ String.[]) = if is 10 c then String.[] else c ∷ˢ String.[]
chop_newline (c ∷ˢ d ∷ˢ s) = c ∷ˢ chop_newline (d ∷ˢ s)

-- _LABEL_RE.match(label)
unfoldable pub label_re : String → Bool
unfolding label_body chop_newline
label_re label = label_body (chop_newline label)

ascii_lower : String → String
ascii_lower String.[] = String.[]
ascii_lower (c ∷ˢ s) = Text.lower_char c ∷ˢ ascii_lower s

abbrev pub is_bracket : Char → Bool
is_bracket c = is b'[' c || is b']' c

module _ (L : Libs) where
  -- c.isspace()
  unfoldable pub is_space : Char → Bool
  unfolding is_ascii
  is_space c =
      if is_ascii c
      then (leb 9 (code c) && leb (code c) 13) || (leb 28 (code c) && leb (code c) 32)
      else L.is_space c

  -- c.isalpha()
  unfoldable pub is_alpha : Char → Bool
  unfolding is_ascii
  is_alpha c =
      if is_ascii c
      then (leb b'a' (code c) && leb (code c) b'z') || (leb b'A' (code c) && leb (code c) b'Z')
      else L.is_alpha c

  -- s.lower()
  unfoldable pub lower : String → String
  unfolding is_ascii ascii_lower
  lower s = if all_chars is_ascii s then ascii_lower s else L.lower s

  unfoldable pub char_script : Char → String
  unfolding is_ascii
  char_script c =
      if is_ascii c
      then "LATIN"
      else elim (L.char_name c) [ none ↦ "COMMON" | some name ↦ Text.before (is b' ') name ]

  -- {_char_script(ch) for ch in label if ch.isalpha()}
  unfoldable pub scripts : String → List String
  unfolding is_alpha char_script set_add
  scripts String.[] = []
  scripts (c ∷ˢ s) =
      let rest = scripts s in if is_alpha c then set_add (char_script c) rest else rest

  unfoldable pub reject_mixed_script : String → Result Error Unit
  reject_mixed_script label = guard (leb (length (scripts label)) 1) (mixed_script label)

  -- value.strip().strip("[]")
  unfoldable pub bare : String → String
  unfolding Text.strip is_space
  bare value = Text.strip is_bracket (Text.strip is_space value)

  unfoldable pub is_ip_literal : String → Bool
  unfolding bare
  is_ip_literal value = is_some (L.ip_address (bare value))

  unfoldable pub canonical_ip : String → Result Error String
  unfolding bare
  canonical_ip value = do
    addr ← expect (not_ip value) (L.ip_address (bare value))
    ok (L.str_addr addr)

  -- one turn of the loop over the labels of a host
  unfoldable pub canonical_label : String → String → Result Error String
  canonical_label host label = do
    guard (not (label == "")) (empty_label host)
    reject_mixed_script label
    if all_chars is_ascii label
        then (do guard (label_re label) (illegal_label label); ok label)
        else do
          encoded ← expect (idna_failure label) (L.idna_encode label)
          guard (label_re encoded) (illegal_encoded encoded)
          ok encoded

  -- the end of canonical_host: the labels joined again
  unfoldable pub join_labels : List String → Result Error String
  join_labels out_labels = do
    let result = Text.join "." out_labels
    guard (leb (len result) 253) (host_too_long result)
    ok result

  unfoldable pub canonical_labels : String → Result Error String
  canonical_labels host = do
    out_labels ← traverse (canonical_label host) (Text.split (is b'.') host)
    join_labels out_labels

  -- what canonical_host does with a host that is no IP literal
  unfoldable pub canonical_name : String → Result Error String
  canonical_name stripped =
      let host = Text.rstrip (is b'.') (lower (L.nfc stripped)) in
      if host == "" || any_char (is b'/') host || any_char (is b' ') host
      then err (illegal_characters host)
      else canonical_labels host

  unfoldable pub canonical_host : String → Result Error String
  canonical_host given =
      let trimmed = Text.strip is_space given in
      let host = Text.strip is_bracket trimmed in
      if trimmed == ""
      then err empty_host
      else if is_ip_literal host
      then canonical_ip host
      else canonical_name host
