-- ===== src/Cli/Config.antt =====
-- lantun-cli/src/config.rs. The codecs, hex and toml, are parameters.
use lantun.Protocol.{TunnelProtocol}
use lantun.Addr.{SocketAddr}
use lantun.Runtime.{Runtime}
use lantun.Base.{
  nat_eq, ◌==◌, length, none, panic, Bool, codes, if◌then◌else◌, err, map_err, ◌∷◌, ok, some, ◌>>=◌,
  ◌≡◌, Bytes, List, Option, Outcome, Text, [],
}
use lantun.Host
use lantun.Client
use lantun.Host.{HostError, HostState}
use lantun.Client.{ClientState, ClientTunnel, ClientError}

pub record HostTunnelEntry : Type 0 where
  pub name : Text
  pub local : SocketAddr
  pub protocol : TunnelProtocol
  pub private_secret : Text
  -- The secret that a client uses to connect to the tunnel.
  pub public_secret : Text
  pub enabled : Bool

pub record ClientTunnelEntry : Type 0 where
  pub name : Text
  pub local : SocketAddr
  pub protocol : TunnelProtocol
  -- The public secret of the host tunnel.
  pub secret : Text
  pub enabled : Bool

pub record LanTunConfig : Type 0 where
  pub host_tunnels : List HostTunnelEntry
  pub client_tunnels : List ClientTunnelEntry

abbrev pub empty_config : LanTunConfig
empty_config = record { host_tunnels = []; client_tunnels = [] }

-- A `Report` is its message; the errors of the core library are kept.
pub data Report : Type 0 where
  message : Text → Report
  client_error : ClientError → Report
  host_error : HostError → Report

-- hex and toml
pub record Codecs : Type 0 where
  pub hex_encode : Bytes → Text
  pub hex_decode : Text → Outcome Text Bytes
  pub toml_to_string : LanTunConfig → Outcome Text Text
  pub toml_from_str : Text → Outcome Text LanTunConfig

pub record IsCodecs (C : Codecs) : Type 0 where
  pub hex_decode-hex_encode : (b : Bytes) → C.hex_decode (C.hex_encode b) ≡ ok b
  -- A configuration can be written, and is read back as it was.
  pub toml_to_string_total : (c : LanTunConfig) → (s : Text) × (C.toml_to_string c ≡ ok s)
  pub toml_from_str-toml_to_string :
      (c : LanTunConfig) (s : Text) → C.toml_to_string c ≡ ok s → C.toml_from_str s ≡ ok c

-- The configuration file, with what the operating system will answer: the text in the file if it
-- exists, and for each call its error. A failed write may leave anything.
pub record Disk : Type 0 where
  pub contents : Option Text
  pub mkdir_error : Option Text
  pub read_error : Option Text
  pub write_error : Option (Text × Option Text)

-- `std::fs::write`
abbrev pub write : Text → Disk → Disk × Outcome Report (Unit {0})
write s d = elim d.write_error [
  | none ↦ (record d { contents = some s }, ok tt)
  | some (e, left) ↦ (record d { contents = left }, err (message e))
]

-- `std::fs::read_to_string`, of a file that exists.
abbrev pub read : Text → Disk → Outcome Report Text
read s d = elim d.read_error [ none ↦ ok s | some e ↦ err (message e) ]

module _ (C : Codecs) where
  abbrev pub write_config : Outcome Text Text → Disk → Disk × Outcome Report (Unit {0})
  write_config (ok s) d = write s d
  write_config (err e) d = (d, err (message e))
  write_config panic d = (d, panic)

  unfoldable pub save_config : LanTunConfig → Disk → Disk × Outcome Report (Unit {0})
  save_config config d = write_config (C.toml_to_string config) d

  abbrev pub or_default : Disk × Outcome Report (Unit {0}) → Disk × Outcome Report LanTunConfig
  or_default (d, r) = (d, do _ ← r; ok empty_config)

  -- Where there is no file, its folder is made and the empty configuration written. The path has a
  -- folder, so that the `unwrap` gives it.
  abbrev pub create_config : Option Text → Disk → Disk × Outcome Report LanTunConfig
  create_config (some e) d = (d, err (message e))
  create_config none d = or_default (write_config (C.toml_to_string empty_config) d)

  unfoldable pub load_config : Disk → Disk × Outcome Report LanTunConfig
  load_config d = elim d.contents [
    | none ↦ create_config d.mkdir_error d
    | some s ↦ (d, do t ← read s d; map_err message (C.toml_from_str t))
  ]

  -- `hex::decode(…)?.try_into()`: a secret is 32 bytes.
  abbrev pub secret_bytes : Text → Text → Outcome Report Bytes
  secret_bytes wrong_length s = do
    b ← map_err message (C.hex_decode s)
    if length b == 32 then ok b else err (message wrong_length)

  module _ (R : Runtime) where
    unfoldable pub create_hosts : List HostTunnelEntry → HostState R → Outcome Report (HostState R)
    create_hosts [] host = ok host
    create_hosts (t ∷ ts) host = do
      secret ← secret_bytes (codes "Invalid private secret length") t.private_secret
      create_hosts ts (Host.create_tunnel R host t.local t.name secret t.protocol).0

    abbrev pub added :
        ClientState R × Outcome ClientError (ClientTunnel R) → Outcome Report (ClientState R)
    added (client, r) = do _ ← map_err client_error r; ok client

    unfoldable pub create_clients :
        List ClientTunnelEntry → ClientState R → Outcome Report (ClientState R)
    create_clients [] client = ok client
    create_clients (t ∷ ts) client = do
      secret ← secret_bytes (codes "Invalid public secret length") t.secret
      client' ← added (Client.create_tunnel R client t.local t.name secret t.protocol)
      create_clients ts client'

    -- `LanTun`
    pub record LanTun : Type 0 where
      pub host : HostState R
      pub client : ClientState R

    -- `LanTun::new`, which is also its `default`
    abbrev pub new : LanTun
    new = record { host = Host.new R; client = Client.new R }

    unfoldable pub create_state : LanTunConfig → Outcome Report LanTun
    unfolding create_hosts create_clients
    create_state config = do
      host ← create_hosts config.host_tunnels new.host
      client ← create_clients config.client_tunnels new.client
      ok (record { host = host; client = client })
