-- ===== src/Intel/Ranking.antt =====
-- score_host and prioritize of src/bbagent/intel/score.py.
pub mod Order
use bugbounty_agent.Base.{
  ℕ, Char, String, Bool, true, false, not, ◌&&◌, ◌||◌, Option, none, some, List, [], ◌∷◌, ◌++◌, map,
  length, leb, ltb, if◌then◌else◌,
}
use bugbounty_agent.Base.Text
use bugbounty_agent.Base.Text.{◌<>◌}
use bugbounty_agent.Base.Sorted.{sort_by}
use bugbounty_agent.Scope.Libs.{Libs}
use bugbounty_agent.Scope.Canonical.{lower}
use bugbounty_agent.Store.Models.{ProbeState, live, dead, unprobed}
use bugbounty_agent.Intel.Signals.{Signal, subdomain_signals, status_signal, takeover_signal}
use bugbounty_agent.Intel.Paths.{path_signals}
use bugbounty_agent.Intel.Params.{param_signals}
use bugbounty_agent.Intel.Servers.{server_signals, header_signals, one}
use bugbounty_agent.Intel.Score.{score_of, tier}
use bugbounty_agent.Intel.Actions.{default_actions}

pub record HostInput : Type 0 where
  pub host : String
  pub status_code : Option ℕ
  pub server : Option String
  pub probe_state : ProbeState
  pub paths : List String
  pub queries : List String
  pub headers : List (String × String)
  pub cname_chain : List String
  pub resolves : Option Bool

pub record AssetPriority : Type 0 where
  pub host : String
  pub score : ℕ
  pub tier : String
  pub signals : List Signal
  pub actions : List String
  pub live : Bool

-- AssetPriority.reasons
unfoldable pub reasons : AssetPriority → List String
reasons a = map (λ (s : Signal). s.why) a.signals

abbrev pub is_live : ProbeState → Bool
is_live live = true
is_live dead = false
is_live unprobed = false

-- What the scoring takes from outside: the scope's libraries, the names that parse_qs finds in a
-- query, the value of a character that \d matches, and str of an int.
pub record Scoring : Type 0 where
  pub libs : Libs
  pub parse_qs : String → List String
  pub decimal : Char → Option ℕ
  pub str : ℕ → String

unfoldable pub heavier : Signal → Signal → Bool
heavier s t = leb t.weight s.weight

-- (-a.score, not a.live, a.host), in order
unfoldable pub ranks_before : AssetPriority → AssetPriority → Bool
ranks_before a b =
    if ltb b.score a.score
    then true
    else if ltb a.score b.score
    then false
    else if a.live && not b.live
    then true
    else if b.live && not a.live
    then false
    else Text.le a.host b.host

module _ (S : Scoring) where
  -- a host with many paths
  unfoldable pub surface_signals : List String → List Signal
  surface_signals paths =
      if leb 20 (length paths)
      then record {
        kind = "surface";
        weight = 2;
        why = S.str (length paths) <> " archived URLs (large surface)";
        action = none;
      }
        ∷ []
      else []

  -- the signals of score_host, in the order that it finds them
  unfoldable pub signals_of : HostInput → List Signal
  unfolding subdomain_signals status_signal server_signals path_signals param_signals header_signals
      takeover_signal surface_signals
  signals_of item =
      subdomain_signals item.host
      ++ one (status_signal item.status_code)
      ++ server_signals S.libs S.decimal item.server
      ++ path_signals (lower S.libs) item.paths
      ++ param_signals S.parse_qs (lower S.libs) item.queries
      ++ header_signals S.libs S.decimal item.host item.headers
      ++ one (takeover_signal (lower S.libs) item.cname_chain item.resolves)
      ++ surface_signals item.paths

  unfoldable pub score_host : HostInput → AssetPriority
  unfolding signals_of score_of tier default_actions heavier
  score_host item =
      let found = signals_of item in
      let score = score_of found item.probe_state in
      let signals = sort_by heavier found in
      record {
        host = item.host;
        score = score;
        tier = tier score;
        signals = signals;
        actions = default_actions (lower S.libs) signals;
        live = is_live item.probe_state;
      }

  unfoldable pub prioritize : List HostInput → List AssetPriority
  unfolding score_host ranks_before
  prioritize items = sort_by ranks_before (map score_host items)
