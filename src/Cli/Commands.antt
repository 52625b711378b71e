-- ===== src/Cli/Commands.antt =====
-- lantun-cli/src/main.rs: what each command does to the configuration file, and what it prints.
use lantun.Cli.Sorting.{sort_by}
use lantun.Runtime.{Runtime}
use lantun.Protocol.{protocol_eq, TunnelProtocol}
use lantun.Addr.{addr_eq, SocketAddr}
use lantun.Base.{
  codes, zero, suc, err, if◌then◌else◌, panic, some, ◌++◌, Bytes, [], bytes_eq, none, ok, true,
  ◌&&◌, ◌||◌, Option, false, ◌==◌, ◌∷◌, Bool, List, Outcome, Text, ℕ,
}
use lantun.Cli.Config.{
  message, save_config, LanTunConfig, load_config, Report, ClientTunnelEntry, Codecs, Disk,
  HostTunnelEntry,
}
use mathlib.Core.Option

-- `Action`
pub data Action : Type 0 where
  create_host_tunnel : (local : SocketAddr) (protocol : TunnelProtocol) (name : Text) → Action
  add_client_tunnel :
      (secret : Text) (local : SocketAddr) (protocol : TunnelProtocol) (name : Text) → Action
  list_tunnels : Action
  remove_tunnel : (name : Text) → Action

-- A printed or logged line, by what stands in it.
pub data Line : Type 0 where
  duplicate_error : Line
  host_created : (name : Text) (local : SocketAddr) (protocol : TunnelProtocol) → Line
  public_secret_is : Text → Line
  add_client_hint : (public_secret : Text) (local : SocketAddr) (protocol : TunnelProtocol) → Line
  client_created : (name : Text) (local : SocketAddr) (protocol : TunnelProtocol) → Line
  host_header client_header : Line
  host_line :
      (name : Text) (local : SocketAddr) (protocol : TunnelProtocol) (public_secret : Text) → Line
  client_line : (name : Text) (local : SocketAddr) (secret : Text) → Line
  removed_host removed_client not_found : Text → Line

pub record Ran : Type 0 where
  pub disk : Disk
  pub lines : List Line
  pub result : Outcome Report (Unit {0})

module _ {A : Type 0} where
  -- `iter().any`
  unfoldable pub any : (A → Bool) → List A → Bool
  any p [] = false
  any p (x ∷ xs) = p x || any p xs

  -- `iter().position`
  unfoldable pub position : (A → Bool) → List A → Option ℕ
  position p [] = none
  position p (x ∷ xs) = if p x then some 0 else Option.map suc (position p xs)

  -- `Vec::remove`, which panics out of range.
  unfoldable pub remove_at : ℕ → List A → Option (List A)
  remove_at i [] = none
  remove_at zero (x ∷ xs) = some xs
  remove_at (suc i) (x ∷ xs) = Option.map (◌∷◌ x) (remove_at i xs)

abbrev pub host_at : SocketAddr → TunnelProtocol → HostTunnelEntry → Bool
host_at local protocol t = t.local == local && t.protocol == protocol

abbrev pub client_at : SocketAddr → TunnelProtocol → ClientTunnelEntry → Bool
client_at local protocol t = t.local == local && t.protocol == protocol

abbrev pub host_named : Text → HostTunnelEntry → Bool
host_named name t = t.name == name

abbrev pub client_named : Text → ClientTunnelEntry → Bool
client_named name t = t.name == name

abbrev pub host_name : HostTunnelEntry → Text
host_name t = t.name

abbrev pub client_name : ClientTunnelEntry → Text
client_name t = t.name

abbrev pub list_hosts : List HostTunnelEntry → List Line
list_hosts [] = []
list_hosts (t ∷ ts) = host_line t.name t.local t.protocol t.public_secret ∷ list_hosts ts

abbrev pub list_clients : List ClientTunnelEntry → List Line
list_clients [] = []
list_clients (t ∷ ts) = client_line t.name t.local t.secret ∷ list_clients ts

-- What is printed after a call that may fail.
abbrev pub printed : Outcome Report (Unit {0}) → List Line → List Line
printed (ok _) after = after
printed _ after = []

module _ (C : Codecs) (R : Runtime) where
  -- `save_config(…)?`, and the lines after it.
  abbrev pub saving : LanTunConfig → List Line → List Line → Disk → Ran
  saving config before after d =
      let (d', r) = save_config C config d in
      record { disk = d'; lines = before ++ printed r after; result = r }

  abbrev pub host_entry : R.SecretKey → SocketAddr → TunnelProtocol → Text → HostTunnelEntry
  host_entry secret local protocol name = record {
    name = name;
    local = local;
    protocol = protocol;
    private_secret = C.hex_encode (R.secret_bytes secret);
    public_secret = C.hex_encode (R.public_bytes (R.public_key secret));
    enabled = true;
  }

  abbrev pub client_entry : Bytes → SocketAddr → TunnelProtocol → Text → ClientTunnelEntry
  client_entry secret local protocol name = record {
    name = name;
    local = local;
    protocol = protocol;
    secret = C.hex_encode secret;
    enabled = true;
  }

  abbrev pub with_host : HostTunnelEntry → LanTunConfig → LanTunConfig
  with_host t config = record config {
    host_tunnels = sort_by host_name (config.host_tunnels ++ (t ∷ []));
  }

  abbrev pub with_client : ClientTunnelEntry → LanTunConfig → LanTunConfig
  with_client t config = record config {
    client_tunnels = sort_by client_name (config.client_tunnels ++ (t ∷ []));
  }

  -- `secret` is what `gen_secret` draws.
  unfoldable pub run_create_host :
      R.SecretKey → SocketAddr → TunnelProtocol → Text → LanTunConfig → Disk → Ran
  run_create_host secret local protocol name config d =
      let t = host_entry secret local protocol name in
      if any (host_at local protocol) config.host_tunnels
      then record { disk = d; lines = duplicate_error ∷ []; result = ok tt }
      else saving (with_host t config) []
          (host_created name local protocol
            ∷ public_secret_is t.public_secret
            ∷ add_client_hint t.public_secret local protocol
            ∷ [])
          d

  abbrev pub add_decoded :
      Outcome Text Bytes → SocketAddr → TunnelProtocol → Text → LanTunConfig → Disk → Ran
  add_decoded (err e) local protocol name config d = record {
    disk = d;
    lines = [];
    result = err (message (codes "Invalid secret format. It should be a hex string."));
  }
  add_decoded panic local protocol name config d = record { disk = d; lines = []; result = panic }
  add_decoded (ok secret) local protocol name config d =
      if any (client_at local protocol) config.client_tunnels
      then record { disk = d; lines = duplicate_error ∷ []; result = ok tt }
      else saving (with_client (client_entry secret local protocol name) config) []
          (client_created name local protocol ∷ []) d

  unfoldable pub run_add_client :
      Text → SocketAddr → TunnelProtocol → Text → LanTunConfig → Disk → Ran
  run_add_client secret local protocol name config d =
      add_decoded (C.hex_decode secret) local protocol name config d

  unfoldable pub run_list : LanTunConfig → Disk → Ran
  run_list config d = record {
    disk = d;
    lines =
        (host_header ∷ list_hosts config.host_tunnels)
        ++ (client_header ∷ list_clients config.client_tunnels);
    result = ok tt;
  }

  abbrev pub remove_host : Option (List HostTunnelEntry) → Text → LanTunConfig → Disk → Ran
  remove_host none name config d = record { disk = d; lines = []; result = panic }
  remove_host (some ts) name config d =
      saving (record config { host_tunnels = ts }) (removed_host name ∷ []) [] d

  abbrev pub remove_client : Option (List ClientTunnelEntry) → Text → LanTunConfig → Disk → Ran
  remove_client none name config d = record { disk = d; lines = []; result = panic }
  remove_client (some ts) name config d =
      saving (record config { client_tunnels = ts }) (removed_client name ∷ []) [] d

  abbrev pub remove_found : Option ℕ → Option ℕ → Text → LanTunConfig → Disk → Ran
  remove_found (some pos) client name config d =
      remove_host (remove_at pos config.host_tunnels) name config d
  remove_found none (some pos) name config d =
      remove_client (remove_at pos config.client_tunnels) name config d
  remove_found none none name config d = record {
    disk = d;
    lines = not_found name ∷ [];
    result = ok tt;
  }

  unfoldable pub run_remove : Text → LanTunConfig → Disk → Ran
  run_remove name config d =
      remove_found (position (host_named name) config.host_tunnels)
        (position (client_named name) config.client_tunnels) name config d

  abbrev pub run_action : R.SecretKey → Action → LanTunConfig → Disk → Ran
  run_action key (create_host_tunnel local protocol name) config d =
      run_create_host key local protocol name config d
  run_action key (add_client_tunnel secret local protocol name) config d =
      run_add_client secret local protocol name config d
  run_action key list_tunnels config d = run_list config d
  run_action key (remove_tunnel name) config d = run_remove name config d

  abbrev pub with_config : R.SecretKey → Action → Disk × Outcome Report LanTunConfig → Ran
  with_config key action (d, ok config) = run_action key action config d
  with_config key action (d, err e) = record { disk = d; lines = []; result = err e }
  with_config key action (d, panic) = record { disk = d; lines = []; result = panic }

  -- `main` with a command.
  unfoldable pub main : R.SecretKey → Action → Disk → Ran
  main key action d = with_config key action (load_config C d)
