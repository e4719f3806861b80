-- ===== src/Tools/Sources.antt =====
-- src/bbagent/tools/sources.py: the passive sources. The fetch of a page and the run of a binary are
-- arguments, and none is any exception that they raise.
pub mod Names
use bugbounty_agent.Base.{
  String, Bool, true, false, not, ◌&&◌, Option, none, some, List, [], ◌∷◌, ◌++◌, ◌==◌, set_add,
  if◌then◌else◌, Result, ok, err,
}
use bugbounty_agent.Base.Results.{◌>>=◌, ◌>>◌}
use bugbounty_agent.Base.Sorted.{sorted}
use bugbounty_agent.Base.Text
use bugbounty_agent.Base.Text.{◌<>◌, is, any_char}
use bugbounty_agent.Scope.Canonical.{is_space, lower}
use bugbounty_agent.Importer.Values.{Value, Items, nil, item, text, get, Importing, Error, str_of}
use bugbounty_agent.Importer.Platforms.{as_dict, iterate}

-- the sources by name
pub data SourceName : Type 0 where
  crtsh subfinder wayback gau : SourceName

module _ (I : Importing) where
  -- what is kept of a line of a certificate's names
  unfoldable pub clean_name : String → String
  unfolding Text.strip Text.lstrip is_space lower
  clean_name line =
      Text.lstrip (Text.any_of "*.") (lower I.libs (Text.strip (is_space I.libs) line))

  unfoldable pub add_names : List String → List String → List String
  unfolding clean_name set_add
  add_names [] names = names
  add_names (line ∷ lines) names =
      let name = clean_name line in
      add_names lines
        (if not (name == "") && not (any_char (is b'@') name) then set_add name names else names)

  -- the loop over the rows; a row that is no dict raises AttributeError
  unfoldable pub add_rows : Items → List String → Result Error (List String)
  unfolding as_dict get add_names Text.splitlines
  add_rows nil names = ok names
  add_rows (item row rows) names = do
    fs ← as_dict row
    add_rows rows (add_names (Text.splitlines (str_of I (get "name_value" (text "") fs))) names)

  abbrev pub crt_rows : Option Value → Result Error (List String)
  crt_rows none = ok []
  crt_rows (some data') = do rows ← iterate data'; names ← add_rows rows []; ok (sorted names)

  abbrev pub crt_data : Option String → Result Error (List String)
  crt_data none = ok []
  crt_data (some raw) = crt_rows (I.json_loads raw)

  -- CrtShSource.discover
  unfoldable pub crtsh_discover : (String → Option String) → String → Result Error (List String)
  unfolding add_rows iterate
  crtsh_discover fetch domain =
      crt_data (fetch ("https://crt.sh/?q=%25." <> domain <> "&output=json"))

  unfoldable pub add_lines : List String → List String → List String
  unfolding set_add Text.strip is_space lower
  add_lines [] names = names
  add_lines (l ∷ lines) names =
      let line = Text.strip (is_space I.libs) l in
      add_lines lines (if line == "" then names else set_add (lower I.libs line) names)

  abbrev found_lines : Option String → List String
  found_lines none = []
  found_lines (some stdout) = sorted (add_lines (Text.splitlines stdout) [])

  -- SubfinderSource.discover
  unfoldable pub subfinder_discover : Bool → (List String → Option String) → String → List String
  unfolding add_lines Text.splitlines
  subfinder_discover available spawn domain =
      if available then found_lines (spawn ("subfinder" ∷ "-silent" ∷ "-d" ∷ domain ∷ [])) else []

  -- the stripped lines that start with http
  unfoldable pub http_lines : List String → List String
  unfolding Text.strip Text.starts_with is_space
  http_lines [] = []
  http_lines (l ∷ lines) =
      let rest = http_lines lines in
      let line = Text.strip (is_space I.libs) l in
      if Text.starts_with line "http" then line ∷ rest else rest

  abbrev url_lines : Option String → List String
  url_lines none = []
  url_lines (some raw) = http_lines (Text.splitlines raw)

  -- WaybackSource.urls, with its limit of 5000
  unfoldable pub wayback_urls : (String → Option String) → String → List String
  unfolding http_lines Text.splitlines
  wayback_urls fetch domain = url_lines (
      fetch (
        "https://web.archive.org/cdx/search/cdx?url=*." <> domain
        <> "/*&output=text&fl=original&collapse=urlkey&limit=5000"))

  -- GauSource.urls
  unfoldable pub gau_urls : Bool → (List String → Option String) → String → List String
  unfolding http_lines Text.splitlines
  gau_urls available spawn domain =
      if available then url_lines (spawn ("gau" ∷ "--subs" ∷ domain ∷ [])) else []

-- default_passive_sources
unfoldable pub default_passive_sources : Bool → List SourceName
default_passive_sources available = if available then crtsh ∷ subfinder ∷ [] else crtsh ∷ []

-- default_url_sources
unfoldable pub default_url_sources : Bool → List SourceName
default_url_sources available = if available then wayback ∷ gau ∷ [] else wayback ∷ []
