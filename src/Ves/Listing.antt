-- ===== src/Ves/Listing.antt =====
-- `get_listen_connections` of base/src/feature/ves_pnfregistration.py: the connections that the
-- running datastore lists. The data of libyang follow the schema of ietf-netconf-server; a key that
-- may be missing is `none`.
use mathlib.Core.List.{map, append_assoc, append-nil}
use sim_o1_ofhmp_interfaces.Prelude.{
  ℕ, String, Option, none, some, List, [], ◌∷◌, ◌++◌, ◌≡◌, refl, ap, ◌∙◌, sym,
}
use sim_o1_ofhmp_interfaces.Prelude.Result.{Result, ok, err, key_error, name_error}
use sim_o1_ofhmp_interfaces.Prelude.Exec.{Exec, pure, lift, modify, ◌>>=◌, ◌>>◌}

pub record User : Type 0 where
  pub name : Option String
  pub password : Option String

-- "local-port" below "tcp-server-parameters"; the list "user" below "ssh-server-parameters", where
-- libyang leaves the key out if there are no users: a first user, and the others.
pub record Ssh : Type 0 where
  pub local_port : Option ℕ
  pub user : Option (User × List User)

pub record Endpoint : Type 0 where
  pub name : Option String
  pub tls : Option (Option ℕ)
  pub ssh : Option Ssh

-- An entry of `listen_endpoints`.
pub data Connection : Type 0 where
  tls : (name : String) (port : ℕ) → Connection
  ssh : (name : String) (port : ℕ) (nc_user nc_pass : String) → Connection

-- The list, and the two local variables, which outlive a round of the loop.
pub record Listing : Type 0 where
  pub listen_endpoints : List Connection
  pub netconf_username : Option String
  pub netconf_password : Option String

-- `d[key]`
abbrev found : {A : Type 0} → Option A → Result A
found none = err key_error
found (some a) = ok a

-- A local variable that was never written raises an UnboundLocalError, which is a NameError.
abbrev local : Option String → Result String
local none = err name_error
local (some s) = ok s

-- `netconf_password[3:]`
abbrev pub pruned : String → String
pruned (String.◌∷◌ a (String.◌∷◌ b (String.◌∷◌ c s))) = s
pruned _ = ""

-- `except KeyError`
abbrev caught : Result (Unit {0}) → Result (Unit {0})
caught (err key_error) = ok tt
caught r = r

abbrev catch_key_error : Exec Listing (Unit {0}) → Exec Listing (Unit {0})
catch_key_error m s = (caught (m s).0, (m s).1)

abbrev add : Connection → Listing → Listing
add c s = record s { listen_endpoints = s.listen_endpoints ++ c ∷ [] }

unfoldable pub take_users : List User → Exec Listing (Unit {0})
take_users [] = pure tt
take_users (u ∷ l) = do
  username ← lift (found u.name)
  modify (λ s. record s { netconf_username = some username })
  password ← lift (found u.password)
  modify (λ s. record s { netconf_password = some (pruned password) })
  take_users l

unfoldable pub take_tls : Option String → Option ℕ → Exec Listing (Unit {0})
take_tls name local_port = do
  port ← lift (found local_port)
  name ← lift (found name)
  modify (add (tls name port))

unfoldable pub take_ssh : Option String → Ssh → Exec Listing (Unit {0})
unfolding take_users
take_ssh name e = do
  port ← lift (found e.local_port)
  name ← lift (found name)
  users ← lift (found e.user)
  take_users (users.0 ∷ users.1)
  username ← λ s. (local s.netconf_username, s)
  password ← λ s. (local s.netconf_password, s)
  modify (add (ssh name port username password))

unfoldable pub take_endpoint : Endpoint → Exec Listing (Unit {0})
unfolding take_tls take_ssh
take_endpoint e s = elim e.tls [
  | some local_port ↦ catch_key_error (take_tls e.name local_port) s
  | none ↦ elim e.ssh [ some x ↦ catch_key_error (take_ssh e.name x) s | none ↦ (ok tt, s) ]
]

unfoldable pub take_endpoints : List Endpoint → Exec Listing (Unit {0})
unfolding take_endpoint
take_endpoints [] = pure tt
take_endpoints (e ∷ l) = do take_endpoint e; take_endpoints l

-- `none` where a key on the way to the list is missing, which is logged.
unfoldable pub get_listen_connections : Option (List Endpoint) → Exec Listing (Unit {0})
unfolding take_endpoints
get_listen_connections none = pure tt
get_listen_connections (some l) = take_endpoints l

-- The endpoints as an administrator means them: each with all of its keys, SSH with users.
pub data Login : Type 0 where
  login : (username password : String) → Login

pub data Meant : Type 0 where
  meant_tls : (name : String) (port : ℕ) → Meant
  meant_ssh : (name : String) (port : ℕ) (others : List Login) (last : Login) → Meant

abbrev user_of : Login → User
user_of (login u p) = record { name = some u; password = some p }

-- A list that ends with `x`, as its first element and the others.
abbrev pub ahead : List User → User → User × List User
ahead [] x = (x, [])
ahead (y ∷ l) x = (y, l ++ x ∷ [])

abbrev pub endpoint_of : Meant → Endpoint
endpoint_of (meant_tls name port) = record { name = some name; tls = some (some port); ssh = none }
endpoint_of (meant_ssh name port others last) = record {
  name = some name;
  tls = none;
  ssh =
      some (record {
        local_port = some port;
        user = some (ahead (map user_of others) (user_of last));
      });
}

abbrev pub connection_of : Meant → Connection
connection_of (meant_tls name port) = tls name port
connection_of (meant_ssh name port others (login u p)) = ssh name port u (pruned p)

take_users-last :
    (others : List Login) (u p : String) (s : Listing)
    → take_users (map user_of others ++ user_of (login u p) ∷ []) s
      ≡ (ok tt, record s { netconf_username = some u; netconf_password = some (pruned p) })
unfolding take_users
take_users-last [] u p s = refl
take_users-last (login v q ∷ others) u p s = take_users-last others u p _

-- The list that a listing has found.
abbrev outcome : Result (Unit {0}) × Listing → Result (Unit {0}) × List Connection
outcome r = (r.0, r.1.listen_endpoints)

take_endpoint-Meant :
    (m : Meant) (s : Listing)
    → outcome (take_endpoint (endpoint_of m) s)
      ≡ (ok tt, s.listen_endpoints ++ connection_of m ∷ [])
unfolding take_endpoint take_users
take_endpoint-Meant (meant_tls name port) s = refl
take_endpoint-Meant (meant_ssh name port [] (login u p)) s = refl
take_endpoint-Meant (meant_ssh name port (login v q ∷ others) (login u p)) s =
    rw
      (take_users-last others u p
        (record s { netconf_username = some v; netconf_password = some (pruned q) }))
      refl

take_endpoint-list :
    (m : Meant) (s : Listing)
    → ((take_endpoint (endpoint_of m) s).0 ≡ ok tt)
      × ((take_endpoint (endpoint_of m) s).1.listen_endpoints
          ≡ s.listen_endpoints ++ connection_of m ∷ [])
take_endpoint-list m s =
    (ap (λ r. r.0) (take_endpoint-Meant m s), ap (λ r. r.1) (take_endpoint-Meant m s))

take_endpoints-Meant :
    (l : List Meant) (s : Listing)
    → outcome (take_endpoints (map endpoint_of l) s)
      ≡ (ok tt, s.listen_endpoints ++ map connection_of l)
unfolding take_endpoints
take_endpoints-Meant [] s = ap (λ l. (ok tt, l)) (sym (append-nil s.listen_endpoints))
take_endpoints-Meant (m ∷ l) s =
    let (returns, list) = take_endpoint-list m s in
    rw returns (
      take_endpoints-Meant l _
      ∙ ap (λ k. (ok tt, k ++ map connection_of l)) list
      ∙ ap (λ k. (ok tt, k))
          (append_assoc s.listen_endpoints (connection_of m ∷ []) (map connection_of l)))

-- From endpoints that have all of their keys, those of SSH with at least one user, every one is
-- listed, in order, with its own name and port, and those of SSH with the name of their last user and
-- with this user's password, which loses its first three characters.
pub get_listen_connections-Meant :
    (l : List Meant) (s : Listing)
    → ((get_listen_connections (some (map endpoint_of l)) s).0 ≡ ok tt)
      × ((get_listen_connections (some (map endpoint_of l)) s).1.listen_endpoints
          ≡ s.listen_endpoints ++ map connection_of l)
unfolding get_listen_connections
get_listen_connections-Meant l s =
    (ap (λ r. r.0) (take_endpoints-Meant l s), ap (λ r. r.1) (take_endpoints-Meant l s))
