-- ===== src/Kernel/Auth.antt =====
-- src/bbagent/kernel/auth.py: the headers of a logged-in session. The headers of the file and the
-- environment variables are arguments; a dict is an association list that keeps insertion order.
use bugbounty_agent.Base.{
  ◌≡◌, refl, String, Bool, true, false, ◌&&◌, List, [], ◌∷◌, map, ◌==◌, if◌then◌else◌,
}
use bugbounty_agent.Base.Text
use bugbounty_agent.Base.Text.{any_char, is}

abbrev pub Headers : Type 0
Headers = List (String × String)

pub record AuthProfile : Type 0 where
  pub headers : Headers

unfoldable pub is_empty : AuthProfile → Bool
is_empty p = elim p.headers [ [] ↦ true | h ∷ hs ↦ false ]

unfoldable pub redacted : AuthProfile → Headers
redacted p = map (λ h. (h.0, "<redacted>")) p.headers

-- d[k] = v
unfoldable pub put : String → String → Headers → Headers
put k v [] = (k, v) ∷ []
put k v ((j, w) ∷ d) = let rest = put k v d in if j == k then (k, v) ∷ d else (j, w) ∷ rest

-- d.update(e)
unfoldable pub update : Headers → Headers → Headers
unfolding put
update d [] = d
update d ((k, v) ∷ e) = update (put k v d) e

-- the loop over os.environ; strip is str.strip
unfoldable pub from_env : (String → String) → Headers → Headers → Headers
unfolding put Text.starts_with Text.before Text.after
from_env strip headers [] = headers
from_env strip headers ((key, val) ∷ env) =
    from_env strip
      (if Text.starts_with key "BBAGENT_AUTH_HEADER" && any_char (is b':') val
        then put (strip (Text.before (is b':') val)) (strip (Text.after (is b':') val)) headers
        else headers)
      env

-- AuthProfile.load
unfoldable pub load : (String → String) → Headers → Headers → AuthProfile
unfolding from_env update
load strip file env = record { headers = from_env strip (update [] file) env }

redacted_of : Headers → Headers
redacted_of headers = redacted (record { headers = headers })

names-redacted :
    (headers : Headers)
    → redacted_of headers ≡ map (λ k. (k, "<redacted>")) (map (λ h. h.0) headers)
unfolding redacted_of redacted
names-redacted [] = refl
names-redacted (h ∷ headers) = rw (names-redacted headers) refl

-- Two profiles with the same names of headers have the same redacted view, whatever the values.
pub redacted-names :
    (p q : AuthProfile)
    → map (λ h. h.0) p.headers ≡ map (λ h. h.0) q.headers
    → redacted p ≡ redacted q
unfolding redacted_of
redacted-names p q e = cc (names-redacted p.headers, names-redacted q.headers, e)
