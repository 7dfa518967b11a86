-- ===== src/Expiration.antt =====
-- base/src/feature/certificate_expiration_notifier.py: the job that announces the end of the
-- certificate. What the certificate says, what `get_item` finds and whether a notification can be sent
-- are arguments; the loop of the scheduler is left out.
use sim_o1_ofhmp_interfaces.Prelude.{
  ◌+◌, String, ◌<>◌, Bool, true, List, [], ◌∷◌, ◌++◌, if◌then◌else◌, ◌≡◌, arith, Bool-cases, inl,
  inr,
}
use sim_o1_ofhmp_interfaces.Prelude.Result.{Result, ok, err, name_error}
use sim_o1_ofhmp_interfaces.Prelude.Exec.{Exec, pure, lift, ◌>>=◌}
use sim_o1_ofhmp_interfaces.Datetime.{Datetime, is_after}
use sim_o1_ofhmp_interfaces.Config.Reload.{Config, is_tls_enabled}

pub record Certificate : Type 0 where
  pub expiration_date : Datetime
  pub formatted_date : String

-- A call of `notification_send` on the running session.
pub record Announced : Type 0 where
  pub xpath : String
  pub expiration_date : String

-- `start`; the second part says whether the thread of the job is started.
unfoldable pub start : Config → Result Certificate → Result (Certificate × Bool)
unfolding is_tls_enabled
start c (err e) = err e
start c (ok certificate) = ok (certificate, is_tls_enabled c)

-- `timedelta(days=30)`, in microseconds
abbrev pub in_thirty_days : Datetime → Datetime
in_thirty_days t = record t { clock = t.clock + 2592000000000 }

abbrev pub definition_below : String → String
definition_below endpoints =
    "/ietf-netconf-server:netconf-server/"
    <> (endpoints
        <> "/endpoints/endpoint/tls/tls-server-parameters/server-identity/certificate/inline-definition")

-- The place of the certificate. Without an endpoint the source reads a variable that has no value.
unfoldable pub definition_path : Config → Result String
definition_path c =
    if c.tls_callhome_endpoint
    then ok (definition_below "call-home/netconf-client")
    else if c.tls_listen_endpoint
    then ok (definition_below "listen")
    else err name_error

abbrev pub send : (Announced → Result (Unit {0})) → Announced → Exec (List Announced) (Unit {0})
send sends n s = (sends n, s ++ n ∷ [])

unfoldable pub announce :
    Config
    → Certificate
    → (String → Result String)
    → (Announced → Result (Unit {0}))
    → Exec (List Announced) (Unit {0})
unfolding definition_path
announce c certificate get_item sends = do
  path ← lift (definition_path c)
  xpath ← lift (get_item path)
  send sends (record {
    xpath = xpath <> "/certificate-expiration";
    expiration_date = certificate.formatted_date;
  })

unfoldable pub certificate_expiration_job :
    Config
    → Certificate
    → Datetime
    → (String → Result String)
    → (Announced → Result (Unit {0}))
    → Exec (List Announced) (Unit {0})
unfolding announce is_after
certificate_expiration_job c certificate now get_item sends =
    if is_after (in_thirty_days now) certificate.expiration_date
    then announce c certificate get_item sends
    else pure tt

-- Where the thread is started, the place of the certificate is known.
definition_path-ok :
    (c : Config) (certificate : Certificate)
    → start c (ok certificate) ≡ ok (certificate, true)
    → (endpoints : String) × (definition_path c ≡ ok (definition_below endpoints))
unfolding definition_path start is_tls_enabled
definition_path-ok c certificate h = elim (Bool-cases c.tls_callhome_endpoint) [
  | inl e ↦ ("call-home/netconf-client", ground (arith, e))
  | inr e ↦ ("listen", ground (arith, e, h))
]
