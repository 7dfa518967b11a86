-- ===== src/Oru/Allow.antt =====
-- `send_odl_callhome_allow_tls` and `send_odl_callhome_allow_ssh`: requests to OpenDaylight until it
-- accepts. What it answers, or what the request raises, is a function of how many requests came
-- before. The loops are cut off after a number of rounds. The waits in between return.
pub mod Round
pub mod Done
use sim_o1_ofhmp_interfaces.Prelude.{
  ℕ, zero, suc, String, ◌<>◌, Bool, true, false, not, ◌&&◌, List, [], ◌∷◌, ◌++◌, length,
  if◌then◌else◌,
}
use sim_o1_ofhmp_interfaces.Prelude.Result.{Error, Result, ok, err, request_error}
use sim_o1_ofhmp_interfaces.Prelude.Exec.{Exec, pure, raise, lift, ◌>>=◌, ◌>>◌}
use sim_o1_ofhmp_interfaces.Value.{Key, name, index, Value, str}
use sim_o1_ofhmp_interfaces.Config.Reload.{Config}
use sim_o1_ofhmp_interfaces.Ves.Execute.{is_success}
use sim_o1_ofhmp_interfaces.Server.{Device, names}
use sim_o1_ofhmp_interfaces.Server.Endpoints.{template, updated, appended}

-- What a request is for: `requests.post` to the two operations of the keystore, or `requests.put` of
-- the device.
pub data Call : Type 0 where
  remove_certificate add_certificate allow_device : Call

pub record Request : Type 0 where
  pub call : Call
  pub url : String
  pub auth : String × String
  pub contents : Value

-- A request, and whether its status was one of success.
pub record Exchange : Type 0 where
  pub request : Request
  pub accepted : Bool

abbrev pub Answers : Type 0
Answers = ℕ → Request → Result ℕ

abbrev pub path_of : String → Call → String
path_of hostname remove_certificate =
    "/rests/operations/netconf-keystore:remove-trusted-certificate"
path_of hostname add_certificate = "/rests/operations/netconf-keystore:add-trusted-certificate"
path_of hostname allow_device =
    "/rests/data/odl-netconf-callhome-server:netconf-callhome-server/allowed-devices/device="
    <> hostname

abbrev pub request_of : Config → String → Call → Value → Request
request_of c hostname call contents = record {
  call = call;
  url = c.sdnr_restconf_url <> path_of hostname call;
  auth = (c.sdnr_username, c.sdnr_password);
  contents = contents;
}

-- The request is made.
abbrev pub noted : Request → Bool → List Exchange → List Exchange
noted q accepted s = s ++ record { request = q; accepted = accepted } ∷ []

-- A request whose exception goes on.
unfoldable pub ask : Answers → Request → Exec (List Exchange) Bool
ask answers q s = elim (answers (length s) q) [
  | err e ↦ (err e, noted q false s)
  | ok status ↦ (ok (is_success status), noted q (is_success status) s)
]

-- `except requests.RequestException`
abbrev pub caught : Result Bool → Result Bool
caught (err request_error) = ok false
caught r = r

unfoldable pub try_request : Answers → Request → Exec (List Exchange) Bool
unfolding ask
try_request answers q s = let r = ask answers q s in (caught r.0, r.1)

-- The contents of the three requests.
pub record Payloads : Type 0 where
  pub remove : Value
  pub add : Value
  pub allow : Value

abbrev device : List String → List Key
device p = names ("odl-netconf-callhome-server:device" ∷ p)

abbrev to_certificate : String → List Key
to_certificate k = name "input" ∷ name "trusted-certificate" ∷ index 0 ∷ name k ∷ []

-- The updates of the templates, with the host name of the container and what
-- `get_certificate_base64_encoding` gives.
unfoldable pub tls_payloads : String → Result String → Exec Device Payloads
unfolding template updated
tls_payloads hostname certificate = do
  a0 ← template "odl-netconf-callhome-trusted-cert"
  a1 ← updated a0 (to_certificate "name") (str hostname)
  text ← lift certificate
  a ← updated a1 (to_certificate "certificate") (str text)
  r0 ← template "odl-netconf-callhome-trusted-cert-remove"
  r ← updated r0 (name "input" ∷ name "name" ∷ index 0 ∷ []) (str hostname)
  d0 ← template "odl-netconf-callhome-server-tls"
  d1 ← updated d0 (device ("unique-id" ∷ [])) (str hostname)
  d ← updated d1 (device ("tls-client-params" ∷ "certificate-id" ∷ [])) (str hostname)
  pure (record { remove = r; add = a; allow = d })

module _ (c : Config) (hostname : String) (answers : Answers) (p : Payloads) where
  -- What is done while `success1` is not set: the old certificate is removed, whatever comes of it,
  -- and the new one is added.
  unfoldable pub replace_certificate : Bool → Exec (List Exchange) Bool
  unfolding try_request
  replace_certificate true = pure true
  replace_certificate false = do
    try_request answers (request_of c hostname remove_certificate p.remove)
    try_request answers (request_of c hostname add_certificate p.add)

  -- What is done while `success2` is not set.
  unfoldable pub allow_once : Bool → Exec (List Exchange) Bool
  unfolding try_request
  allow_once true = pure true
  allow_once false = try_request answers (request_of c hostname allow_device p.allow)

  -- One round of the loop.
  unfoldable pub pass : Bool × Bool → Exec (List Exchange) (Bool × Bool)
  unfolding replace_certificate allow_once
  pass (success1, success2) = do
    a ← replace_certificate success1
    b ← allow_once success2
    pure (a, b)

  unfoldable pub rounds : ℕ → Bool × Bool → Exec (List Exchange) (Bool × Bool)
  unfolding pass
  rounds zero done = pure done
  rounds (suc n) done = if done.0 && done.1 then pure done else (do next ← pass done; rounds n next)

-- `send_odl_callhome_allow_tls`, with at most so many rounds.
unfoldable pub send_odl_callhome_allow_tls :
    Config → String → Result String → Answers → ℕ → Device → Result (Bool × Bool) × List Exchange
unfolding tls_payloads rounds
send_odl_callhome_allow_tls c hostname certificate answers n d =
    elim (tls_payloads hostname certificate d).0 [
      | err e ↦ (err e, [])
      | ok p ↦ rounds c hostname answers p n (false, false) []
    ]

-- The updates of `send_odl_callhome_allow_ssh`, with what `get_public_key_ssh_format` gives.
unfoldable pub ssh_payload : Config → String → Result String → Exec Device Value
unfolding template updated appended
ssh_payload c hostname public_key = do
  v0 ← template "odl-netconf-callhome-server-ssh"
  v1 ← updated v0 (device ("unique-id" ∷ [])) (str hostname)
  v2 ←
      updated v1 (device ("ssh-client-params" ∷ "credentials" ∷ "username" ∷ []))
        (str c.netconf_username)
  v3 ←
      appended v2 (device ("ssh-client-params" ∷ "credentials" ∷ "passwords" ∷ []))
        (str c.netconf_password)
  text ← lift public_key
  updated v3 (device ("ssh-client-params" ∷ "host-key" ∷ [])) (str text)

-- The loop of `send_odl_callhome_allow_ssh`, which catches nothing.
unfoldable pub ssh_rounds : Answers → Request → ℕ → Bool → Exec (List Exchange) Bool
unfolding ask
ssh_rounds answers q n true = pure true
ssh_rounds answers q zero false = pure false
ssh_rounds answers q (suc n) false = do next ← ask answers q; ssh_rounds answers q n next

unfoldable pub send_odl_callhome_allow_ssh :
    Config → String → Result String → Answers → ℕ → Device → Result Bool × List Exchange
unfolding ssh_payload ssh_rounds
send_odl_callhome_allow_ssh c hostname public_key answers n d =
    elim (ssh_payload c hostname public_key d).0 [
      | err e ↦ (err e, [])
      | ok v ↦ ssh_rounds answers (request_of c hostname allow_device v) n false []
    ]
