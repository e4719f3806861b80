-- ===== src/Tools/Probes.antt =====
-- src/bbagent/tools/probes.py: the one request of the liveness probe. The socket is an argument: what
-- a request is answered with, or none for any exception.
use bugbounty_agent.Base.{
  ℕ, String, Bool, true, false, Option, none, some, List, [], ◌∷◌, ◌==◌, set_add, if◌then◌else◌,
}
use bugbounty_agent.Base.Sorted.{sorted}
use bugbounty_agent.Scope.Libs.{Libs}
use bugbounty_agent.Scope.Canonical.{lower}
use bugbounty_agent.Kernel.Auth.{Headers}
use bugbounty_agent.Intel.Servers.{header_of}
use bugbounty_agent.Orchestrator.{ProbeResult}

-- what is sent, and to where
pub record Request : Type 0 where
  pub ip : String
  pub port : ℕ
  pub tls : Bool
  pub verb : String
  pub path : String
  pub headers : Headers

pub record Response : Type 0 where
  pub status : ℕ
  pub headers : Headers

abbrev or_no_headers : Option Headers → Headers
or_no_headers none = []
or_no_headers (some headers) = headers

-- the request of http_liveness
unfoldable pub request_of : String → String → String → Option Headers → Request
request_of host ip scheme auth_headers = record {
  ip = ip;
  port = if scheme == "https" then 443 else 80;
  tls = scheme == "https";
  verb = "HEAD";
  path = "/";
  headers = ("Host", host) ∷ ("User-Agent", "bbagent/0.1") ∷ or_no_headers auth_headers;
}

unfoldable pub dedupe : List String → List String → List String
unfolding set_add
dedupe [] ips = ips
dedupe (ip ∷ more) ips = dedupe more (set_add ip ips)

-- resolve_ips, from the addresses of getaddrinfo; none is its OSError
unfoldable pub resolve_ips : Option (List String) → List String
unfolding dedupe
resolve_ips none = []
resolve_ips (some addresses) = sorted (dedupe addresses [])

module _ (L : Libs) where
  -- {str(k).lower(): v}: later headers of a name replace earlier ones
  unfoldable pub put_header : String → String → Headers → Headers
  put_header key value [] = (key, value) ∷ []
  put_header key value ((k, v) ∷ headers) =
      let rest = put_header key value headers in
      if k == key then (key, value) ∷ headers else (k, v) ∷ rest

  unfoldable pub lowered : Headers → Headers → Headers
  unfolding put_header lower
  lowered [] out = out
  lowered ((k, v) ∷ headers) out = lowered headers (put_header (lower L k) v out)

  -- http_liveness
  unfoldable pub http_liveness :
      (Request → Option Response) → String → String → String → Option Headers → ProbeResult
  unfolding request_of lowered header_of
  http_liveness send host ip scheme auth_headers =
      elim (send (request_of host ip scheme auth_headers)) [
        | none ↦ record { alive = false; status_code = none; server = none; headers = [] }
        | some response ↦
            let headers = lowered response.headers [] in
            record {
              alive = true;
              status_code = some response.status;
              server = header_of (λ k. k) "server" headers;
              headers = headers;
            }
      ]
