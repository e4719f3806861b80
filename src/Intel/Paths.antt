-- ===== src/Intel/Paths.antt =====
-- path_signals of src/bbagent/intel/signals.py. The regular expressions are read by hand; lower is
-- str.lower.
use bugbounty_agent.Base.{
  ℕ, Char, code, String, Bool, true, false, ◌&&◌, ◌||◌, Option, none, some, List, [], ◌∷◌, ◌++◌,
  ◌==◌, contains, eqb, if◌then◌else◌,
}
use Prim.Native.String.{◌∷◌ as ◌∷ˢ◌}
use bugbounty_agent.Base.Text
use bugbounty_agent.Base.Text.{◌<>◌, len, is}
use bugbounty_agent.Intel.Tables.{Table, path_raw, sensitive_exts, bucket_patterns}
use bugbounty_agent.Intel.Signals.{Signal}

-- (?:/|$)
abbrev ends_segment : String → Bool
ends_segment String.[] = true
ends_segment (c ∷ˢ s) = is b'/' c || (is 10 c && s == "")

-- re.compile(re.escape(needle) + r"(?:/|$)").search(p)
unfoldable pub has_segment : String → String → Bool
unfolding Text.starts_with Text.drop
has_segment needle String.[] = needle == ""
has_segment needle (c ∷ˢ s) =
    (Text.starts_with (c ∷ˢ s) needle && ends_segment (Text.drop (len needle) (c ∷ˢ s)))
    || has_segment needle s

-- a character of a pattern whose case is ignored: it also matches two letters beyond ASCII
abbrev same_char : Char → Char → Bool
same_char d c = eqb (code d) (code c) || (is b'i' d && is 305 c) || (is b's' d && is 383 c)

-- (?=[?#/&;]|$)
abbrev ends_ext : String → Bool
ends_ext String.[] = true
ends_ext (c ∷ˢ s) =
    is b'?' c || is b'#' c || is b'/' c || is b'&' c || is b';' c || (is 10 c && s == "")

-- an extension at the start of a text
unfoldable pub is_ext : String → String → Bool
is_ext String.[] s = ends_ext s
is_ext (d ∷ˢ ext) String.[] = false
is_ext (d ∷ˢ ext) (c ∷ˢ s) = same_char d c && is_ext ext s

-- the first alternative that matches, as it stands in the text
unfoldable pub ext_of : List String → String → Option String
unfolding is_ext Text.take
ext_of [] s = none
ext_of (ext ∷ exts) s = if is_ext ext s then some (Text.take (len ext) s) else ext_of exts s

-- SENSITIVE_EXT.search(p).group(1)
unfoldable pub sensitive_ext : String → Option String
unfolding ext_of sensitive_exts
sensitive_ext String.[] = none
sensitive_ext (c ∷ˢ s) =
    let rest = sensitive_ext s in
    if is b'.' c then elim (ext_of sensitive_exts s) [ some ext ↦ some ext | none ↦ rest ] else rest

-- the set of what is seen, and the signals so far
abbrev pub Seen : Type 0
Seen = List String × List Signal

-- a signal that is found once
unfoldable pub once : String → Signal → Seen → Seen
unfolding contains
once key s (seen, out) = if contains seen key then (seen, out) else (key ∷ seen, out ++ s ∷ [])

abbrev path_signal : ℕ → String → String → Signal
path_signal weight why action = record {
  kind = "path";
  weight = weight;
  why = why;
  action = some action;
}

-- for rx, needle, weight, why in _PATH_SIGNALS
unfoldable pub needles : String → String → Table String → Seen → Seen
unfolding has_segment once
needles raw p [] st = st
needles raw p ((needle, weight, why) ∷ table) st = needles raw p table (
    if has_segment needle p
    then once needle (path_signal weight (raw <> " — " <> why) ("GET " <> raw <> " (read-only)")) st
    else st)

-- for bkt in _BUCKET_PATTERNS
unfoldable pub buckets : String → String → List String → Seen → Seen
unfolding Text.has once
buckets raw p [] st = st
buckets raw p (bkt ∷ bkts) st = buckets raw p bkts (
    if Text.has p bkt
    then once ("bkt:" <> bkt)
        (path_signal 6 (raw <> " — cloud bucket referenced (" <> bkt <> ")")
          "Check the in-scope bucket for public list/read (read-only)")
        st
    else st)

module _ (lower : String → String) where
  unfoldable pub sensitive : String → String → Seen → Seen
  unfolding sensitive_ext once
  sensitive raw p st = elim (sensitive_ext p) [
    | none ↦ st
    | some ext ↦
        once ("ext:" <> lower ext)
          (path_signal 8 (raw <> " — sensitive ." <> ext <> " file")
            ("GET " <> raw <> " (read-only)"))
          st
  ]

  unfoldable pub script : String → String → Seen → Seen
  unfolding Text.ends_with once
  script raw p st =
      if Text.ends_with p ".js"
      then once "js"
          (path_signal 4 (raw <> " — JS asset (endpoints/secrets)")
            ("Fetch " <> raw <> "; grep for API paths / keys / internal hosts (read-only)"))
          st
      else st

  -- the body of the loop of path_signals
  unfoldable pub path_step : String → Seen → Seen
  unfolding needles sensitive script buckets path_raw bucket_patterns Text.before
  path_step raw st =
      let p = lower (Text.before (is b'#') (Text.before (is b'?') raw)) in
      buckets raw p bucket_patterns (script raw p (sensitive raw p (needles raw p path_raw st)))

  unfoldable pub path_loop : List String → Seen → Seen
  unfolding path_step
  path_loop [] st = st
  path_loop (raw ∷ paths) st = path_loop paths (path_step raw st)

  unfoldable pub path_signals : List String → List Signal
  unfolding path_loop
  path_signals paths = let (seen, out) = path_loop paths ([], []) in out
