-- ===== src/Importer/Files/Kept.antt =====
-- The sniffer of src/bbagent/importer/core.py keeps what ScopeDraft.add keeps.
use bugbounty_agent.Base.{String, Option, none, some, ◌||◌, Result, ok, err}
use bugbounty_agent.Base.Results.{Ensures, >>=-Ensures, any-Ensures, if-Ensures, expect}
use bugbounty_agent.Base.Text
use bugbounty_agent.Base.Text.{is}
use bugbounty_agent.Scope.Canonical.{is_space}
use bugbounty_agent.Importer.Values.{Importing, Error, is_import_error, json_error}
use bugbounty_agent.Importer.Draft.{ScopeDraft}
use bugbounty_agent.Importer.Draft.Entries.{IsKept}
use bugbounty_agent.Importer.Platforms.{parse_embedded, parse_html_best_effort}
use bugbounty_agent.Importer.Kept.{
  parse_hackerone-kept, parse_bugcrowd-kept, parse_embedded-kept, parse_plaintext-kept,
  parse_html_best_effort-kept, Found,
}
use bugbounty_agent.Importer.Brief.{starts}
use bugbounty_agent.Importer.Files.{
  or_next, wrapped, parse_json, parse_page, is_page, sniff_and_parse,
}

or_next-Ensures :
    (P : ScopeDraft → Type 0) (r next : Result Error ScopeDraft)
    → Ensures P r
    → Ensures P next
    → Ensures P (or_next r next)
unfolding or_next
or_next-Ensures P (ok d) next h hn = h
or_next-Ensures P (err e) next h hn = if-Ensures P (is_import_error e) _ _ hn tt

module _ (I : Importing) (P : ScopeDraft → Type 0) (kept : IsKept I P) where
  parse_json-kept : (t : String) → Ensures P (parse_json I t)
  unfolding parse_json
  parse_json-kept t = any-Ensures P (expect json_error (I.json_loads t)) _ λ v.
      or_next-Ensures P _ _ (parse_hackerone-kept I P kept (wrapped v))
        (or_next-Ensures P _ _ (parse_bugcrowd-kept I P kept (wrapped v)) tt)

  page-kept :
      (t : String) (found : Option ScopeDraft)
      → Found I P kept found
      → Ensures P (elim found [ some d ↦ ok d | none ↦ parse_html_best_effort I t ])
  page-kept t none h = parse_html_best_effort-kept I P kept t
  page-kept t (some d) h = h

  parse_page-kept : (t : String) → Ensures P (parse_page I t)
  unfolding parse_page
  parse_page-kept t =
      >>=-Ensures (Found I P kept) P (parse_embedded I t) _ (parse_embedded-kept I P kept t)
        λ found h. page-kept t found h

  pub sniff_and_parse-kept : (t : String) → Ensures P (sniff_and_parse I t)
  unfolding sniff_and_parse
  sniff_and_parse-kept given =
      let t = Text.strip (is_space I.libs) given in
      if-Ensures P (starts (λ c. is b'{' c || is b'[' c) t) _ _ (parse_json-kept t)
        (if-Ensures P (is_page I t) _ _ (parse_page-kept t) (parse_plaintext-kept I P kept t))
