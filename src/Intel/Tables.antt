-- ===== src/Intel/Tables.antt =====
-- The tables of src/bbagent/intel/signals.py that weigh names, paths, parameters, status codes, servers
-- and aliases.
use bugbounty_agent.Base.{ℕ, String, List, [], ◌∷◌}

-- the rows of a table: a key, its weight and what is said of it
abbrev pub Table : Type 0 → Type 0
Table K = List (K × ℕ × String)

unfoldable pub subdomain_tokens : Table String
subdomain_tokens =
    ("dev", 7, "development environment (often weaker auth/controls)")
    ∷ ("development", 7, "development environment")
    ∷ ("staging", 7, "staging environment")
    ∷ ("stage", 7, "staging environment")
    ∷ ("test", 6, "test environment")
    ∷ ("testing", 6, "test environment")
    ∷ ("qa", 6, "QA environment")
    ∷ ("uat", 7, "user-acceptance environment")
    ∷ ("preprod", 7, "pre-production environment")
    ∷ ("sandbox", 6, "sandbox environment")
    ∷ ("beta", 5, "beta environment")
    ∷ ("demo", 5, "demo environment")
    ∷ ("old", 7, "legacy/unmaintained host")
    ∷ ("legacy", 7, "legacy host")
    ∷ ("deprecated", 6, "deprecated host")
    ∷ ("backup", 8, "backup host — data/secret exposure risk")
    ∷ ("internal", 9, "internal-facing asset exposed externally")
    ∷ ("intranet", 9, "intranet exposed externally")
    ∷ ("corp", 7, "corporate/internal asset")
    ∷ ("private", 7, "'private' asset reachable externally")
    ∷ ("vpn", 8, "VPN endpoint")
    ∷ ("admin", 9, "admin interface")
    ∷ ("adminer", 9, "Adminer DB console")
    ∷ ("phpmyadmin", 9, "phpMyAdmin DB console")
    ∷ ("manage", 7, "management interface")
    ∷ ("management", 7, "management interface")
    ∷ ("console", 6, "management console")
    ∷ ("dashboard", 6, "dashboard")
    ∷ ("portal", 5, "portal")
    ∷ ("git", 9, "source control — code/secret leak risk")
    ∷ ("gitlab", 8, "GitLab instance")
    ∷ ("gitea", 8, "Gitea instance")
    ∷ ("jenkins", 9, "Jenkins CI — RCE/secret risk")
    ∷ ("ci", 7, "CI system")
    ∷ ("cd", 6, "CD system")
    ∷ ("jira", 6, "Jira (info disclosure)")
    ∷ ("confluence", 7, "Confluence (info disclosure / CVEs)")
    ∷ ("grafana", 7, "Grafana (dashboards/CVEs)")
    ∷ ("kibana", 7, "Kibana (data exposure)")
    ∷ ("prometheus", 6, "Prometheus (metrics exposure)")
    ∷ ("sonar", 6, "SonarQube")
    ∷ ("nexus", 7, "Nexus repository")
    ∷ ("artifactory", 7, "Artifactory")
    ∷ ("registry", 7, "container/artifact registry")
    ∷ ("harbor", 7, "Harbor registry")
    ∷ ("docker", 6, "Docker-related host")
    ∷ ("k8s", 7, "Kubernetes-related host")
    ∷ ("kube", 7, "Kubernetes-related host")
    ∷ ("rancher", 7, "Rancher")
    ∷ ("db", 8, "database host")
    ∷ ("database", 8, "database host")
    ∷ ("mysql", 7, "MySQL host")
    ∷ ("postgres", 7, "Postgres host")
    ∷ ("redis", 7, "Redis host")
    ∷ ("mongo", 7, "MongoDB host")
    ∷ ("elastic", 7, "Elasticsearch host")
    ∷ ("solr", 7, "Solr host")
    ∷ ("s3", 6, "object storage")
    ∷ ("storage", 6, "storage host")
    ∷ ("files", 5, "file host")
    ∷ ("upload", 6, "file-upload surface")
    ∷ ("sso", 7, "single sign-on")
    ∷ ("oauth", 7, "OAuth endpoint")
    ∷ ("idp", 7, "identity provider")
    ∷ ("auth", 6, "auth service")
    ∷ ("login", 5, "login surface")
    ∷ ("account", 5, "account service")
    ∷ ("api", 6, "API surface")
    ∷ ("apis", 6, "API surface")
    ∷ ("graphql", 8, "GraphQL endpoint (introspection/IDOR)")
    ∷ ("gateway", 6, "API gateway")
    ∷ ("rest", 5, "REST API")
    ∷ ("payment", 7, "payment surface")
    ∷ ("payments", 7, "payment surface")
    ∷ ("pay", 6, "payment surface")
    ∷ ("billing", 6, "billing surface")
    ∷ ("checkout", 6, "checkout surface")
    ∷ ("invoice", 5, "invoicing surface")
    ∷ ("webmail", 6, "webmail")
    ∷ ("mail", 3, "mail host")
    ∷ ("www", 0, "primary web host")
    ∷ ("static", 0, "static asset host")
    ∷ ("assets", 0, "static asset host")
    ∷ ("cdn", 0, "CDN host")
    ∷ ("img", 0, "image host")
    ∷ ("media", 0, "media host")
    ∷ ("blog", 0, "blog")
    ∷ ("status", 0, "status page")
    ∷ ("docs", 0, "docs host")
    ∷ []

unfoldable pub status_signals : Table ℕ
status_signals =
    (401, 5, "auth-gated (401) — worth testing auth/authorization")
    ∷ (403, 5, "forbidden (403) — worth testing access-control bypass")
    ∷ (500, 4, "server error (500) — possible misconfiguration")
    ∷ (503, 2, "unavailable (503)")
    ∷ (200, 2, "live (200)")
    ∷ (405, 2, "method not allowed (405) — API behind it")
    ∷ []

unfoldable pub takeover_providers : List (String × String)
takeover_providers =
    ("s3.amazonaws.com", "AWS S3")
    ∷ (".github.io", "GitHub Pages")
    ∷ ("herokudns.com", "Heroku")
    ∷ ("herokuapp.com", "Heroku")
    ∷ (".azurewebsites.net", "Azure")
    ∷ ("cloudapp.net", "Azure")
    ∷ ("trafficmanager.net", "Azure")
    ∷ (".netlify.app", "Netlify")
    ∷ (".fastly.net", "Fastly")
    ∷ (".ghost.io", "Ghost")
    ∷ (".surge.sh", "Surge")
    ∷ (".bitbucket.io", "Bitbucket")
    ∷ (".zendesk.com", "Zendesk")
    ∷ (".statuspage.io", "Statuspage")
    ∷ (".readthedocs.io", "ReadTheDocs")
    ∷ (".wpengine.com", "WP Engine")
    ∷ (".pantheonsite.io", "Pantheon")
    ∷ (".unbouncepages.com", "Unbounce")
    ∷ (".myshopify.com", "Shopify")
    ∷ (".desk.com", "Desk")
    ∷ []

unfoldable pub path_raw : Table String
path_raw =
    ("/.git", 10, "exposed .git directory (source/secret leak)")
    ∷ ("/.env", 10, "exposed .env (credentials)")
    ∷ ("/.svn", 8, "exposed .svn")
    ∷ ("/.hg", 7, "exposed .hg")
    ∷ ("/actuator/env", 10, "Spring Boot actuator env (secrets)")
    ∷ ("/actuator", 8, "Spring Boot actuator (info/secrets)")
    ∷ ("/server-status", 7, "Apache server-status exposure")
    ∷ ("/phpinfo", 8, "phpinfo() exposure")
    ∷ ("/manager/html", 9, "Tomcat manager (RCE-prone)")
    ∷ ("/jmx-console", 8, "JBoss JMX console")
    ∷ ("/solr", 7, "Solr admin")
    ∷ ("/graphql", 8, "GraphQL endpoint (introspection/IDOR)")
    ∷ ("/graphiql", 8, "GraphiQL console")
    ∷ ("/swagger", 7, "Swagger/OpenAPI docs (surface map)")
    ∷ ("/openapi", 7, "OpenAPI spec (surface map)")
    ∷ ("/api-docs", 7, "API docs (surface map)")
    ∷ ("/admin", 6, "admin path")
    ∷ ("/wp-admin", 6, "WordPress admin")
    ∷ ("/wp-login", 5, "WordPress login")
    ∷ ("/wp-json", 5, "WordPress REST API")
    ∷ ("/debug", 7, "debug endpoint")
    ∷ ("/console", 6, "web console")
    ∷ ("/backup", 8, "backup path")
    ∷ ("/dump", 8, "dump path")
    ∷ ("/.ds_store", 5, "exposed .DS_Store (path leak)")
    ∷ []

unfoldable pub bucket_patterns : List String
bucket_patterns =
    ".s3.amazonaws.com" ∷ "s3.amazonaws.com" ∷ "storage.googleapis.com" ∷ ".blob.core.windows.net"
    ∷ "digitaloceanspaces.com" ∷ []

unfoldable pub param_table : Table String
param_table =
    ("id", 6, "object reference (IDOR)")
    ∷ ("uid", 6, "object reference (IDOR)")
    ∷ ("user", 6, "object reference (IDOR)")
    ∷ ("account", 6, "object reference (IDOR)")
    ∷ ("order", 6, "object reference (IDOR)")
    ∷ ("invoice", 6, "object reference (IDOR)")
    ∷ ("doc", 6, "object reference (IDOR)")
    ∷ ("url", 7, "redirect/SSRF")
    ∷ ("redirect", 7, "redirect/SSRF")
    ∷ ("next", 7, "redirect/SSRF")
    ∷ ("return", 7, "redirect/SSRF")
    ∷ ("dest", 7, "redirect/SSRF")
    ∷ ("callback", 7, "redirect/SSRF")
    ∷ ("u", 7, "redirect/SSRF")
    ∷ ("file", 7, "LFI/path-traversal")
    ∷ ("path", 7, "LFI/path-traversal")
    ∷ ("template", 7, "LFI/path-traversal")
    ∷ ("include", 7, "LFI/path-traversal")
    ∷ ("page", 6, "LFI/path-traversal")
    ∷ ("q", 5, "injection (SQLi/XSS)")
    ∷ ("search", 5, "injection (SQLi/XSS)")
    ∷ ("query", 5, "injection (SQLi/XSS)")
    ∷ ("filter", 5, "injection (SQLi/XSS)")
    ∷ ("sort", 5, "injection (SQLi/XSS)")
    ∷ ("cmd", 8, "command execution")
    ∷ ("exec", 8, "command execution")
    ∷ ("run", 8, "command execution")
    ∷ ("ping", 8, "command execution")
    ∷ []

unfoldable pub server_table : Table String
server_table =
    ("jenkins", 8, "Jenkins (RCE/secret CVEs)")
    ∷ ("gitlab", 7, "GitLab (CVEs)")
    ∷ ("tomcat", 6, "Apache Tomcat (manager/CVEs)")
    ∷ ("jetty", 4, "Jetty")
    ∷ ("werkzeug", 7, "Werkzeug (Flask debug console?)")
    ∷ ("gunicorn", 2, "Gunicorn")
    ∷ ("grafana", 6, "Grafana (CVEs)")
    ∷ ("kibana", 6, "Kibana")
    ∷ ("php", 3, "PHP stack")
    ∷ ("wordpress", 4, "WordPress")
    ∷ ("iis", 2, "Microsoft IIS")
    ∷ ("apache", 1, "Apache httpd")
    ∷ ("nginx", 0, "nginx")
    ∷ ("cloudflare", 0, "behind Cloudflare")
    ∷ []

-- a product, its first and its last vulnerable version, and a note
unfoldable pub vuln_ranges : List (String × List ℕ × List ℕ × String)
vuln_ranges =
    ("apache", (2 ∷ 4 ∷ 49 ∷ []), (2 ∷ 4 ∷ 50 ∷ []), "CVE-2021-41773/42013 (path traversal -> RCE)")
    ∷ ("tomcat", (0 ∷ []), (9 ∷ 0 ∷ 30 ∷ []), "Ghostcat CVE-2020-1938 (AJP file read/RCE)")
    ∷ ("jetty", (0 ∷ []), (9 ∷ 4 ∷ 40 ∷ []), "older Jetty — check CVE-2021-28164/28169")
    ∷ []

-- the alternatives of SENSITIVE_EXT, with both that ya?ml stands for
unfoldable pub sensitive_exts : List String
sensitive_exts =
    "sql" ∷ "bak" ∷ "old" ∷ "backup" ∷ "zip" ∷ "tar" ∷ "tgz" ∷ "gz" ∷ "env" ∷ "log" ∷ "conf"
    ∷ "config" ∷ "yaml" ∷ "yml" ∷ "pem" ∷ "key" ∷ "p12" ∷ "pfx" ∷ "swp" ∷ "db" ∷ "sqlite" ∷ []
