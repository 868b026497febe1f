-- ===== src/Utils/Cert.antt =====
-- utils/cert.go: the host names of the machine, and a certificate that the server signs for itself.
use postee.Prelude.{
  ℕ, ◌+◌, ◌*◌, ◌^◌, String, Bool, true, false, Option, none, some, List, [], ◌∷◌, ◌++◌, Result, ok,
  err, Error, not, if◌then◌else◌, ◌||◌,
}

-- What `net` says of the machine. `Ip` is net.IP, which may be nil where it is an Option.
pub data NetAddr (Ip : Type 0) : Type 0 where
  ip_net ip_addr : Option Ip → NetAddr Ip
  other_addr : NetAddr Ip

pub record Interface (Ip : Type 0) : Type 0 where
  pub up : Bool
  pub loopback : Bool
  pub addrs : Result (List (NetAddr Ip))

pub record NetServices : Type 1 where
  pub Ip : Type 0
  pub interfaces : Result (List (Interface Ip))
  pub is_loopback : Ip → Bool
  pub to4 : Ip → Option Ip
  pub ip_text : Ip → String
  pub lookup_addr : String → List String
  pub parse_ip : String → Option Ip

module _ (net : NetServices) where
  open net use {Ip, interfaces, is_loopback, to4, ip_text, lookup_addr, parse_ip}

  abbrev ip_of : NetAddr Ip → Option Ip
  ip_of (ip_net ip) = ip
  ip_of (ip_addr ip) = ip
  ip_of other_addr = none

  -- The address and its names, for one of IPv4.
  abbrev named_ip : Option Ip → List String
  named_ip none = []
  named_ip (some ip) = ip_text ip ∷ lookup_addr (ip_text ip)

  abbrev names_of : Option Ip → List String
  names_of none = []
  names_of (some ip) = if is_loopback ip then [] else named_ip (to4 ip)

  unfoldable pub hosts_of_addrs : List (NetAddr Ip) → List String
  hosts_of_addrs [] = []
  hosts_of_addrs (addr ∷ addrs) = names_of (ip_of addr) ++ hosts_of_addrs addrs

  -- The loop over the interfaces: an error returns with the hosts so far.
  unfoldable pub hosts_of : List (Interface Ip) → List String → List String × Option Error
  unfolding hosts_of_addrs
  hosts_of [] hosts = (hosts, none)
  hosts_of (iface ∷ ifaces) hosts =
      let skipped = hosts_of ifaces hosts in
      if not iface.up || iface.loopback then skipped else elim iface.addrs [
        | err e ↦ (hosts, some e)
        | ok addrs ↦ hosts_of ifaces (hosts ++ hosts_of_addrs addrs)
      ]

  unfoldable pub get_hostnames : List String × Option Error
  unfolding hosts_of
  get_hostnames = elim interfaces [ err e ↦ ([], some e) | ok ifaces ↦ hosts_of ifaces [] ]

  pub data KeyUsage : Type 0 where
    key_encipherment digital_signature cert_sign : KeyUsage

  -- x509.Certificate, as far as it is set.
  pub record CertTemplate : Type 0 where
    pub serial_number : ℕ
    pub organization : String
    -- Times in seconds.
    pub not_before : ℕ
    pub not_after : ℕ
    pub key_usage : List KeyUsage
    pub server_auth : Bool
    pub basic_constraints_valid : Bool
    pub ip_addresses : List Ip
    pub dns_names : List String
    pub is_ca : Bool

  abbrev add_host : String → CertTemplate → CertTemplate
  add_host h t = elim (parse_ip h) [
    | some ip ↦ record t { ip_addresses = t.ip_addresses ++ (ip ∷ []) }
    | none ↦ record t { dns_names = t.dns_names ++ (h ∷ []) }
  ]

  unfoldable pub add_hosts : List String → CertTemplate → CertTemplate
  add_hosts [] t = t
  add_hosts (h ∷ hosts) t = add_hosts hosts (add_host h t)

  abbrev new_template : (now serial : ℕ) → CertTemplate
  new_template now serial = record {
    serial_number = serial;
    organization = "Aquasec";
    not_before = now;
    not_after = now + 3650 * 24 * 3600;
    key_usage = key_encipherment ∷ digital_signature ∷ [];
    server_auth = true;
    basic_constraints_valid = true;
    ip_addresses = [];
    dns_names = [];
    is_ca = false;
  }

  abbrev for_signing : CertTemplate → CertTemplate
  for_signing t = record t { is_ca = true; key_usage = t.key_usage ++ (cert_sign ∷ []) }

  -- pem.Block
  pub record PemBlock : Type 0 where
    pub type : String
    pub bytes : String

  -- A private key as an interface{}: the two kinds that are told apart, and anything else.
  pub data PrivateKey (RsaKey EcdsaKey : Type 0) : Type 0 where
    rsa : RsaKey → PrivateKey RsaKey EcdsaKey
    ecdsa : EcdsaKey → PrivateKey RsaKey EcdsaKey
    other_key : PrivateKey RsaKey EcdsaKey

  -- crypto/rsa, crypto/ecdsa, crypto/rand, crypto/x509, encoding/pem and the files of package os. The file that is
  -- written to is the one that was opened; a write that fails may have written a part.
  pub record CertServices : Type 1 where
    pub Files : Type 0
    pub RsaKey : Type 0
    pub EcdsaKey : Type 0
    pub PublicKey : Type 0
    pub now : ℕ
    pub generate_key : (bits : ℕ) → Result RsaKey
    pub rand_int : (limit : ℕ) → Result ℕ
    pub rsa_public : RsaKey → PublicKey
    pub ecdsa_public : EcdsaKey → PublicKey
    pub marshal_pkcs1_private_key : RsaKey → String
    pub marshal_ec_private_key : EcdsaKey → Result String
    pub create_certificate :
        CertTemplate → Option PublicKey → PrivateKey RsaKey EcdsaKey → Result String
    pub create_file : Files → String → Result Files
    pub open_truncated : (mode : ℕ) → Files → String → Result Files
    pub pem_encode : Files → (path : String) → Option PemBlock → Option Error × Files

  module _ (services : CertServices) where
    open services use {
      Files, RsaKey, EcdsaKey, PublicKey, now, generate_key, rand_int, rsa_public, ecdsa_public,
      marshal_pkcs1_private_key, marshal_ec_private_key, create_certificate, create_file,
      open_truncated, pem_encode,
    }

    abbrev Key : Type 0
    Key = PrivateKey RsaKey EcdsaKey

    unfoldable pub public_key : Key → Option PublicKey
    public_key (rsa k) = some (rsa_public k)
    public_key (ecdsa k) = some (ecdsa_public k)
    public_key other_key = none

    abbrev ec_block : Result String → Option PemBlock
    ec_block (err e) = none
    ec_block (ok b) = some (record { type = "EC PRIVATE KEY"; bytes = b })

    unfoldable pub pem_block_for_key : Key → Option PemBlock
    pem_block_for_key (rsa k) =
        some (record { type = "RSA PRIVATE KEY"; bytes = marshal_pkcs1_private_key k })
    pem_block_for_key (ecdsa k) = ec_block (marshal_ec_private_key k)
    pem_block_for_key other_key = none

    abbrev Written : Type 0
    Written = Option Error × Files

    abbrev key_opened : (key_file : String) → Key → Files → Result Files → Written
    key_opened key_file priv fs (err e) = (some e, fs)
    key_opened key_file priv fs (ok opened) = pem_encode opened key_file (pem_block_for_key priv)

    abbrev cert_written : (key_file : String) → Key → Written → Written
    cert_written key_file priv (some e, fs) = (some e, fs)
    cert_written key_file priv (none, fs) =
        key_opened key_file priv fs (open_truncated 384 fs key_file)

    abbrev cert_created : (key_file cert_file der : String) → Key → Files → Result Files → Written
    cert_created key_file cert_file der priv fs (err e) = (some e, fs)
    cert_created key_file cert_file der priv fs (ok opened) =
        cert_written key_file priv
          (pem_encode opened cert_file (some (record { type = "CERTIFICATE"; bytes = der })))

    abbrev signed : (key_file cert_file : String) → Key → Files → Result String → Written
    signed key_file cert_file priv fs (err e) = (some e, fs)
    signed key_file cert_file priv fs (ok der) =
        cert_created key_file cert_file der priv fs (create_file fs cert_file)

    abbrev numbered : List String → (key_file cert_file : String) → Key → Files → Result ℕ → Written
    numbered hosts key_file cert_file priv fs (err e) = (some e, fs)
    numbered hosts key_file cert_file priv fs (ok serial) = signed key_file cert_file priv fs (
        create_certificate (for_signing (add_hosts hosts (new_template now serial)))
          (public_key priv) priv)

    -- The mode 0600 of the key's file is 384.
    unfoldable pub create_cert_files : List String → (key_file cert_file : String) → Files → Written
    unfolding add_hosts public_key pem_block_for_key
    create_cert_files hosts key_file cert_file fs = elim (generate_key 2048) [
      | err e ↦ (some e, fs)
      | ok priv ↦ numbered hosts key_file cert_file (rsa priv) fs (rand_int (2 ^ 128))
    ]

    abbrev with_hosts : (key_file cert_file : String) → Files → List String × Option Error → Written
    with_hosts key_file cert_file fs (hosts, some e) = (some e, fs)
    with_hosts key_file cert_file fs (hosts, none) = create_cert_files hosts key_file cert_file fs

    unfoldable pub generate_certificate : (key_file cert_file : String) → Files → Written
    unfolding get_hostnames create_cert_files
    generate_certificate key_file cert_file fs = with_hosts key_file cert_file fs get_hostnames
