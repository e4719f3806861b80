-- ===== src/Tools/Sources/Names.antt =====
-- The names and the URLs that the passive sources of src/bbagent/tools/sources.py give.
use bugbounty_agent.Base.{
  ◌≡◌, refl, inl, inr, Char, String, Bool, false, Option, none, some, List, [], ◌∷◌, ◌==◌, All,
  set_add, set_add-All, Bool-cases, ok,
}
use Prim.Native.String.{◌∷◌ as ◌∷ˢ◌}
use bugbounty_agent.Base.Results.{Ensures, Ensures-ok, >>=-Ensures, any-Ensures}
use bugbounty_agent.Base.Sorted.{sorted-All}
use bugbounty_agent.Base.Text
use bugbounty_agent.Base.Text.{◌<>◌, is, any_char}
use bugbounty_agent.Scope.Canonical.{is_space, lower}
use bugbounty_agent.Importer.Values.{Value, Items, nil, item, text, get, Importing, str_of}
use bugbounty_agent.Importer.Platforms.{as_dict, iterate}
use bugbounty_agent.Tools.Sources.{
  clean_name, add_names, add_rows, crt_rows, crt_data, crtsh_discover,
}

-- the first character, tested
abbrev pub starts : (Char → Bool) → String → Bool
starts p String.[] = false
starts p (c ∷ˢ s) = p c

-- A name that is not empty, has no @ and does not start with a wildcard or a dot.
abbrev pub IsClean : String → Type 0
IsClean name =
    (name == "" ≡ false)
    × (any_char (is b'@') name ≡ false)
    × (starts (Text.any_of "*.") name ≡ false)

starts-lstrip : (p : Char → Bool) (s : String) → starts p (Text.lstrip p s) ≡ false
unfolding Text.lstrip
starts-lstrip p String.[] = refl
starts-lstrip p (c ∷ˢ s) = elim (Bool-cases (p c)) [
  | inl e ↦ rw (e, Text.lstrip) (starts-lstrip p s)
  | inr e ↦ rw (e, Text.lstrip) e
]

module _ (I : Importing) where
  add_names-IsClean :
      (lines names : List String) → All IsClean names → All IsClean (add_names I lines names)
  unfolding add_names clean_name
  add_names-IsClean [] names h = h
  add_names-IsClean (line ∷ lines) names h =
      let name = clean_name I line in
      let front : starts (Text.any_of "*.") name ≡ false =
        starts-lstrip (Text.any_of "*.") (lower I.libs (Text.strip (is_space I.libs) line)) in
      elim (Bool-cases (name == "")) [
        | inl e ↦ rw (e, add_names) (add_names-IsClean lines names h)
        | inr e ↦ elim (Bool-cases (any_char (is b'@') name)) [
          | inl a ↦ rw (e, a, add_names) (add_names-IsClean lines names h)
          | inr a ↦
              rw (e, a, add_names)
                (add_names-IsClean lines (set_add name names)
                  (set_add-All IsClean name names (e, a, front) h))
        ]
      ]

  add_rows-IsClean :
      (rows : Items) (names : List String)
      → All IsClean names
      → Ensures (All IsClean) (add_rows I rows names)
  unfolding add_rows
  add_rows-IsClean nil names h = h
  add_rows-IsClean (item row rows) names h = any-Ensures (All IsClean) (as_dict row) _ λ fs.
      add_rows-IsClean rows _
        (add_names-IsClean (Text.splitlines (str_of I (get "name_value" (text "") fs))) names h)

  crt_rows-IsClean : (v : Option Value) → Ensures (All IsClean) (crt_rows I v)
  crt_rows-IsClean none = tt
  crt_rows-IsClean (some v) = any-Ensures (All IsClean) (iterate v) _ λ rows.
      >>=-Ensures (All IsClean) (All IsClean) (add_rows I rows []) _ (add_rows-IsClean rows [] tt)
        λ names h. sorted-All IsClean names h

  crt_data-IsClean : (raw : Option String) → Ensures (All IsClean) (crt_data I raw)
  crt_data-IsClean none = tt
  crt_data-IsClean (some raw) = crt_rows-IsClean (I.json_loads raw)

  -- Each name that crt.sh gives for a domain, whatever the answer holds, is not empty, has no @ and
  -- starts with neither a wildcard nor a dot.
  pub crtsh_discover-IsClean :
      (fetch : String → Option String) (domain : String) {names : List String}
      → crtsh_discover I fetch domain ≡ ok names
      → All IsClean names
  unfolding crtsh_discover
  crtsh_discover-IsClean fetch domain =
      Ensures-ok (All IsClean) (crtsh_discover I fetch domain)
        (crt_data-IsClean (fetch ("https://crt.sh/?q=%25." <> domain <> "&output=json")))
