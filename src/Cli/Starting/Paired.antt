-- ===== src/Cli/Starting/Paired.antt =====
-- `add-client` with the public secret that `add-host` printed: the client dials the host's key
-- (main.rs, config.rs).
use lantun.Client.Tunnels.{create_tunnel-Branches}
use lantun.Map.{contains_key, get, insert}
use lantun.Cli.Sorting.{insert_by, sort_by}
use lantun.Cli.Commands.{
  add_client_hint, with_host, public_secret_is, saving, Line, run_create_host, add_client_tunnel,
  any, create_host_tunnel, host_entry,
}
use lantun.Cli.Edits.{edit}
use lantun.Client.{ClientTunnel}
use lantun.Host.{HostTunnel}
use lantun.Protocol.{TunnelProtocol}
use lantun.Base.{ap, List, ◌∙◌, refl, codes, [], ◌∷◌, arith, ok, ◌≡◌, length, Bytes, Text}
use lantun.Addr.{SocketAddr}
use lantun.Runtime.{IsRuntime, Runtime}
use lantun.Cli.Config.{
  HostTunnelEntry, Disk, create_clients, create_hosts, create_state, empty_config, secret_bytes,
  LanTunConfig, IsCodecs, Codecs,
}
use lantun.Host
use lantun.Client

-- The secrets that a reader of the printed lines finds, with that of the suggested command.
abbrev pub printed_secrets : List Line → List Text
printed_secrets [] = []
printed_secrets (public_secret_is secret ∷ lines) = secret ∷ printed_secrets lines
printed_secrets (add_client_hint secret local protocol ∷ lines) = secret ∷ printed_secrets lines
printed_secrets (_ ∷ lines) = printed_secrets lines

module _ (C : Codecs) (R : Runtime) (key : R.SecretKey) where
  -- The configuration after `add-host` with a new key.
  abbrev pub hosting : SocketAddr → TunnelProtocol → Text → LanTunConfig
  hosting local protocol name = edit C R key (create_host_tunnel local protocol name) empty_config

  -- The configuration after `add-client` with a secret.
  abbrev pub dialing : Text → SocketAddr → TunnelProtocol → Text → LanTunConfig
  dialing secret local protocol name =
      edit C R key (add_client_tunnel secret local protocol name) empty_config

  abbrev pub host_tunnel : SocketAddr → TunnelProtocol → Text → HostTunnel R
  host_tunnel local protocol name = Host.made R local name (R.secret_bytes key) protocol

module _ (C : Codecs) (R : Runtime) (L : IsCodecs C) (K : IsRuntime R) where
  -- Hex text of 32 bytes passes.
  secret_bytes-encoded :
      (wrong_length : Text) (b : Bytes)
      → length b ≡ 32
      → secret_bytes C wrong_length (C.hex_encode b) ≡ ok b
  secret_bytes-encoded wrong_length b long = rw (L.hex_decode-hex_encode b) (ground arith)

  module _ (key other : R.SecretKey) (local local' : SocketAddr)
      (protocol protocol' : TunnelProtocol) (name name' : Text) where
    hosting-create_state :
        create_state C R (hosting C R key local protocol name)
        ≡ ok (record {
          host = (R.secret_bytes key, host_tunnel C R key local protocol name) ∷ [];
          client = [];
        })
    unfolding edit any sort_by insert_by create_state create_hosts create_clients Host.create_tunnel
        insert
    hosting-create_state =
        rw
          (secret_bytes-encoded (codes "Invalid private secret length") (R.secret_bytes key)
            (K.length-secret_bytes key))
          refl

    dialing-create_state :
        create_state C R (
          dialing C R other
            (C.hex_encode (R.public_bytes (R.public_key key)))
            local'
            protocol'
            name')
        ≡ ok (record {
          host = [];
          client =
              ((local', protocol'), Client.made R local' name' (R.public_key key) protocol') ∷ [];
        })
    unfolding edit any sort_by insert_by create_state create_hosts create_clients Client.get_tunnel
        insert get contains_key
    dialing-create_state =
        let b = R.public_bytes (R.public_key key) in
        rw
          (
            L.hex_decode-hex_encode b,
            secret_bytes-encoded (codes "Invalid public secret length") b
                (K.length-public_bytes (R.public_key key)),
            (create_tunnel-Branches R [] local' name' b protocol').free (R.public_key key) refl
                (K.public_from-public_bytes (R.public_key key)),
          )
          refl

    saved-result :
        (d : Disk) (entry : HostTunnelEntry) (after : List Line)
        → (saving C R (with_host C R entry empty_config) [] after d).result ≡ ok tt
        → (saving C R (with_host C R entry empty_config) [] after d).lines ≡ after
    saved-result d entry after e = rw e refl

    -- With codecs and keys that meet their laws, for an add-host to an empty configuration that
    -- succeeds on its disk: the state made of the new configuration has one host tunnel, under the
    -- new key; the lines that the command printed show one secret, in the line that names it and
    -- in the command that is suggested; and the state made, on another machine, after an
    -- add-client with that secret has one client tunnel, which dials the public key of that host
    -- tunnel.
    pub printed_secret-dials :
        (d : Disk)
        → (run_create_host C R key local protocol name empty_config d).result ≡ ok tt
        → let t = host_tunnel C R key local protocol name in
          (create_state C R (hosting C R key local protocol name)
            ≡ ok (record { host = (R.secret_bytes key, t) ∷ []; client = [] }))
          × ((secret : Text) × (printed_secrets
                  (run_create_host C R key local protocol name empty_config d).lines
                ≡ secret ∷ secret ∷ [])
              × (create_state C R (dialing C R other secret local' protocol' name')
                  ≡ ok (record {
                    host = [];
                    client =
                        (
                          (local', protocol'),
                          Client.made R local' name' (R.public_key t.secret) protocol',
                        )
                        ∷ [];
                  })))
    unfolding run_create_host any
    printed_secret-dials d saved = (
      hosting-create_state,
      (
        C.hex_encode (R.public_bytes (R.public_key key)),
        ap printed_secrets (saved-result d (host_entry C R key local protocol name) _ saved),
        dialing-create_state ∙ rw (K.secret_from-secret_bytes key) refl,
      ),
    )
