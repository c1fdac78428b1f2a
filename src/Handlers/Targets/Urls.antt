-- ===== src/Handlers/Targets/Urls.antt =====
-- The URLs that validateTargetURL accepts.
use pulse_monitor.Handlers.Targets.{Uri, check_uri, validate_target_url}
use pulse_monitor.Prelude.{◌≡◌, ◌≢◌, ◌↔◌, ◌⊎◌, refl, [], Option, none, some, arith, if◌then◌else◌}
use pulse_monitor.Result.{Result, ok, err}
use pulse_monitor.Text.Split.{text_eq_iff}
use pulse_monitor.Text.{Text, codes, trim_space, text_eq}

-- A URL that can be monitored: without the spaces around it it is not empty, it parses, and it has
-- a host and one of the two schemes.
pub record IsMonitorable (parse : Text → Option Uri) (raw : Text) : Type 0 where
  pub uri : Uri
  pub parsed : parse (trim_space raw) ≡ some uri
  pub ne_nil : trim_space raw ≢ []
  pub host_ne_nil : uri.host ≢ []
  pub web_scheme : (uri.scheme ≡ codes "http") ⊎ (uri.scheme ≡ codes "https")

uri-ok :
    (raw url : Text) (u : Uri)
    → check_uri raw (some u) ≡ ok url
    → (url ≡ raw) × (u.host ≢ []) × ((u.scheme ≡ codes "http") ⊎ (u.scheme ≡ codes "https"))
uri-ok raw url u h = ground (
  arith,
  text_eq_iff u.host [],
  text_eq_iff u.scheme (codes "http"),
  text_eq_iff u.scheme (codes "https"),
)

check_uri-ok :
    (raw : Text) (o : Option Uri) {url : Text}
    → check_uri raw o ≡ ok url
    → (url ≡ raw)
      × (u : Uri) × (o ≡ some u)
      × (u.host ≢ [])
      × ((u.scheme ≡ codes "http") ⊎ (u.scheme ≡ codes "https"))
check_uri-ok raw none h = cc
check_uri-ok raw (some u) {url = url} h =
    let (e, host, scheme) = uri-ok raw url u h in (e, u, refl, host, scheme)

check_uri-eq :
    (raw : Text) (u : Uri)
    → u.host ≢ []
    → (u.scheme ≡ codes "http") ⊎ (u.scheme ≡ codes "https")
    → check_uri raw (some u) ≡ ok raw
check_uri-eq raw u h s = ground (
  arith,
  text_eq_iff u.host [],
  text_eq_iff u.scheme (codes "http"),
  text_eq_iff u.scheme (codes "https"),
)

required-ok :
    (raw url : Text) (r : Result Text Text)
    → (if text_eq raw [] then err (codes "URL is required") else r) ≡ ok url
    → (raw ≢ []) × (r ≡ ok url)
required-ok raw url r h = ground (arith, text_eq_iff raw [])

pub validate_target_url_iff :
    (parse : Text → Option Uri) (raw url : Text)
    → (validate_target_url parse raw ≡ ok url) ↔ ((url ≡ trim_space raw) × IsMonitorable parse raw)
unfolding validate_target_url
validate_target_url_iff parse raw url = (
  λ h.
      let (n, k) = required-ok (trim_space raw) url _ h in
      let (e, u, p, host, scheme) = check_uri-ok (trim_space raw) (parse (trim_space raw)) k in
      (e, record { uri = u; parsed = p; ne_nil = n; host_ne_nil = host; web_scheme = scheme }),
  λ h.
      let m = h.1 in
      rw (m.parsed, h.0)
        (ground (
          arith,
          text_eq_iff (trim_space raw) [],
          m.ne_nil,
          check_uri-eq (trim_space raw) m.uri m.host_ne_nil m.web_scheme,
        )),
)
