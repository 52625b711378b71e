-- ===== src/Cli/Starting/Broken.antt =====
-- A secret of the wrong length is accepted by `add-client`, and then no tunnel can be started
-- (main.rs, config.rs).
use lantun.Client
use lantun.Cli.Entries.{any-append, any-sort_by}
use lantun.Cli.Starting.Made.{secret_bytes-decodes, create_clients-cons}
use lantun.Cli.Files.{main-Leaves, Holds}
use lantun.Protocol.{TunnelProtocol}
use lantun.Addr.{SocketAddr}
use lantun.Client.{ClientState}
use lantun.Cli.Starting.Secrets.{wrong_bytes}
use lantun.Base.{
  refl, nat_eq, ◌∙◌, ◌++◌, codes, ◌==◌, arith, length, [], ◌∷◌, false, pair_ok, ok, true, Bytes,
  ◌≡◌, Text, Bool, List,
}
use lantun.Cli.Edits.{edit}
use lantun.Cli.Commands.{client_name, client_entry, add_client_tunnel, main, client_at, any}
use lantun.Runtime.{Runtime}
use lantun.Cli.Config.{
  Disk, create_hosts, create_clients, LanTun, IsCodecs, LanTunConfig, ClientTunnelEntry,
  create_state, Codecs,
}

module _ (C : Codecs) (R : Runtime) where
  -- A client entry whose secret is not 32 bytes.
  abbrev pub wrong_client : ClientTunnelEntry → Bool
  wrong_client t = wrong_bytes C R (C.hex_decode t.secret)

  create_clients-right :
      (ts : List ClientTunnelEntry) (client made : ClientState R)
      → create_clients C R ts client ≡ ok made
      → any wrong_client ts ≡ false
  unfolding any
  create_clients-right [] client made e = refl
  create_clients-right (t ∷ ts) client made e =
      let (b, u, decoded, handed, rest) = create_clients-cons C R t ts client made e in
      let (d, long) =
        secret_bytes-decodes C R (codes "Invalid public secret length") t.secret decoded in
      let right =
        create_clients-right ts (Client.create_tunnel R client t.local t.name b t.protocol).0 made
          rest in
      rw (d, long, right) (ground arith)

  -- Of a configuration with a client secret of the wrong length no state is made.
  pub create_state-wrong :
      (c : LanTunConfig) (state : LanTun C R)
      → any wrong_client c.client_tunnels ≡ true
      → ¬ (create_state C R c ≡ ok state)
  unfolding create_state
  create_state-wrong c state h e =
      let (host, client, e1, e2, same) =
        pair_ok (create_hosts C R c.host_tunnels []) (create_clients C R c.client_tunnels [])
          (λ host client. record { host = host; client = client }) e in
      let right = create_clients-right c.client_tunnels [] client e2 in ground arith

  -- With codecs that meet their laws, on a disk that answers every call and holds a configuration,
  -- add-client succeeds with hex text of another length than 32 bytes, if its address and protocol
  -- are free; and of the configuration that it leaves in the file no state can be made.
  pub add_client-wrong :
      IsCodecs C
      → (key : R.SecretKey) (secret : Text) (b : Bytes) (local : SocketAddr)
        (protocol : TunnelProtocol) (name : Text) (c : LanTunConfig) (d : Disk)
      → Holds C c d
      → C.hex_decode secret ≡ ok b
      → (length b == 32) ≡ false
      → any (client_at local protocol) c.client_tunnels ≡ false
      → let ran = main C R key (add_client_tunnel secret local protocol name) d in
        (ran.result ≡ ok tt)
        × (c' : LanTunConfig) × Holds C c' ran.disk
        × ((state : LanTun C R) → ¬ (create_state C R c' ≡ ok state))
  unfolding edit any
  add_client-wrong L key secret b local protocol name c d h e short free =
      let action = add_client_tunnel secret local protocol name in
      let (answered, held) = main-Leaves C L R key action c d h in
      let t = client_entry C R b local protocol name in
      let pushed =
        any-sort_by client_name wrong_client (c.client_tunnels ++ (t ∷ []))
        ∙ any-append wrong_client c.client_tunnels (t ∷ []) in
      (
        rw e at answered,
        edit C R key action c,
        held,
        λ state.
            create_state-wrong (edit C R key action c) state
              (rw (e, free, pushed, L.hex_decode-hex_encode b) (ground arith)),
      )
