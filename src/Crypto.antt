-- ===== src/Crypto.antt =====
-- base/src/util/crypto.py: `CryptoUtils`, its keys and certificates. The package cryptography is a
-- record of functions, the keys and certificates that it makes are of any types, the key that it
-- generates is an argument, and the files are a dictionary. Pem has the texts that others ask for.
pub mod Pem
pub mod Restart
use sim_o1_ofhmp_interfaces.Prelude.{
  ℕ, ◌+◌, ◌-◌, ◌*◌, String, ◌<>◌, Bool, true, false, ◌&&◌, Option, none, some, List, [], ◌∷◌,
  if◌then◌else◌,
}
use sim_o1_ofhmp_interfaces.Prelude.Result.{Result, ok, err, exception}
use sim_o1_ofhmp_interfaces.Prelude.Exec.{Exec, pure, lift, modify, ◌>>=◌, ◌>>◌}
use sim_o1_ofhmp_interfaces.Prelude.Dict.{Dict, lookup, insert}
use sim_o1_ofhmp_interfaces.DictFactory.{or_raise}

abbrev pub private_key_path : String
private_key_path = "/home/oranuser/.ssh/private_key.pem"

abbrev pub public_key_path : String
public_key_path = "/home/oranuser/.ssh/public_key.pem"

abbrev pub odu_certificate_path : String
odu_certificate_path = "/home/oranuser/.ssh/odu_certificate.pem"

abbrev pub smo_certificate_path : String
smo_certificate_path = "/home/oranuser/.ssh/smo_certificate.pem"

-- The days that a certificate is valid.
abbrev certificate_validity_days : ℕ
certificate_validity_days = 3650

abbrev day : ℕ
day = 24 * 60 * 60

-- What is asked of the builder of certificates. Times are in seconds.
pub record Order (Key Public : Type 0) : Type 0 where
  pub subject : List (String × String)
  pub issuer : String
  pub public_key : Public
  pub not_before : ℕ
  pub not_after : ℕ
  pub authority : Public
  pub alternative_names : List (String × String)
  pub signed_with : Key

-- The functions of the package that are called.
pub record Cryptography (Key Public Certificate : Type 0) : Type 0 where
  pub load_private : String → Result Key
  pub private_bytes : Key → String
  pub load_public : String → Result Public
  pub public_of : Key → Public
  pub public_pem : Public → String
  pub public_ssh : Public → String
  pub load_certificate : String → Result Certificate
  pub certificate_bytes : Certificate → String
  pub subject_of : Certificate → String
  pub build : Order Key Public → Certificate

pub record Keys (Key : Type 0) : Type 0 where
  pub private_key_rsa : Key
  pub private_key : String
  pub public_key_pem : String
  pub public_key_ssh : String

-- The key and the certificate of a certification authority.
pub record Root (Key Certificate : Type 0) : Type 0 where
  pub ca_private_key : Key
  pub ca_cert : Certificate
  pub ca_cert_decoded : String

-- What the container and the clock say while a certificate is made.
pub record Surroundings : Type 0 where
  pub hostname : String
  pub address : String
  pub started : ℕ
  pub finished : ℕ

pub record CryptoUtils (Key Certificate : Type 0) : Type 0 where
  pub keys : Keys Key
  pub root_odu : Root Key Certificate
  pub root_smo : Root Key Certificate
  pub odu_certificate : String
  pub smo_certificate : String

abbrev pub Files : Type 0
Files = Dict String

-- `open(path, 'rb').read()` and `open(path, 'wb').write(text)`
unfoldable pub read : String → Exec Files String
unfolding or_raise lookup
read path s = (or_raise exception (lookup path s), s)

unfoldable pub write : String → String → Exec Files (Unit {0})
unfolding insert
write path text = modify (insert path text)

-- `os.path.exists`
unfoldable pub exists : String → Files → Bool
unfolding lookup
exists path s = elim (lookup path s) [ none ↦ false | some text ↦ true ]

-- The host name and the suffix of one of the two identities.
abbrev pub client : Bool → String
client is_smo = if is_smo then "client.smo" else "client.hybridOdu"

module _ {Key Public Certificate : Type 0} (lib : Cryptography Key Public Certificate) where
  -- One half of `load_ca_keys_and_certs`.
  unfoldable pub load_root : String → String → Exec Files (Root Key Certificate)
  unfolding read
  load_root key_path cert_path = do
    key_text ← read key_path
    key ← lift (lib.load_private key_text)
    cert_text ← read cert_path
    cert ← lift (lib.load_certificate cert_text)
    pure (record {
      ca_private_key = key;
      ca_cert = cert;
      ca_cert_decoded = lib.certificate_bytes cert;
    })

  unfoldable pub load_keys : Exec Files (Keys Key)
  unfolding read
  load_keys = do
    private_text ← read private_key_path
    key ← lift (lib.load_private private_text)
    public_text ← read public_key_path
    public_key ← lift (lib.load_public public_text)
    pure (record {
      private_key_rsa = key;
      private_key = lib.private_bytes key;
      public_key_pem = lib.public_pem public_key;
      public_key_ssh = lib.public_ssh public_key;
    })

  unfoldable pub generate_keys : Key → Exec Files (Keys Key)
  unfolding write
  generate_keys key = do
    write private_key_path (lib.private_bytes key)
    write public_key_path (lib.public_pem (lib.public_of key))
    pure (record {
      private_key_rsa = key;
      private_key = lib.private_bytes key;
      public_key_pem = lib.public_pem (lib.public_of key);
      public_key_ssh = lib.public_ssh (lib.public_of key);
    })

  -- `generate_or_load_keys`, with the key that is generated if one is.
  unfoldable pub generate_or_load_keys : Key → Exec Files (Keys Key)
  unfolding exists load_keys generate_keys
  generate_or_load_keys key s =
      if exists private_key_path s && exists public_key_path s
      then load_keys s
      else generate_keys key s

  -- `generate_certificate`, in PEM.
  unfoldable pub generate_certificate : Root Key Certificate → Key → Bool → Surroundings → String
  generate_certificate root key is_smo w = lib.certificate_bytes (
      lib.build (record {
        subject =
            ("COUNTRY_NAME", "US")
            ∷ ("STATE_OR_PROVINCE_NAME", "NJ")
            ∷ ("LOCALITY_NAME", "New Jersey")
            ∷ ("ORGANIZATION_NAME", "Melacon")
            ∷ ("ORGANIZATIONAL_UNIT_NAME", "5G")
            ∷ ("COMMON_NAME", if is_smo then "SMO" else "hybridOdu")
            ∷ [];
        issuer = lib.subject_of root.ca_cert;
        public_key = lib.public_of key;
        not_before = w.started - day;
        not_after = w.finished + certificate_validity_days * day;
        authority = lib.public_of root.ca_private_key;
        alternative_names =
            ("RFC822Name", client is_smo)
            ∷ ("RFC822Name", client is_smo <> ("@" <> w.hostname))
            ∷ ("DNSName", client is_smo)
            ∷ ("DNSName", client is_smo <> ("@" <> w.hostname))
            ∷ ("IPAddress", w.address)
            ∷ [];
        signed_with = root.ca_private_key;
      }))

  -- `initialize`
  unfoldable pub initialize :
      Key → (odu smo : Surroundings) → Exec Files (CryptoUtils Key Certificate)
  unfolding load_root generate_or_load_keys generate_certificate write
  initialize key odu smo = do
    root_odu ← load_root "/home/oranuser/.ssh/ODU_rootCA.key" "/home/oranuser/.ssh/ODU_rootCA.crt"
    root_smo ← load_root "/home/oranuser/.ssh/SMO_rootCA.key" "/home/oranuser/.ssh/SMO_rootCA.crt"
    keys ← generate_or_load_keys key
    write odu_certificate_path (generate_certificate root_odu keys.private_key_rsa false odu)
    write smo_certificate_path (generate_certificate root_smo keys.private_key_rsa true smo)
    pure (record {
      keys = keys;
      root_odu = root_odu;
      root_smo = root_smo;
      odu_certificate = generate_certificate root_odu keys.private_key_rsa false odu;
      smo_certificate = generate_certificate root_smo keys.private_key_rsa true smo;
    })
