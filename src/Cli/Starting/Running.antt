-- ===== src/Cli/Starting/Running.antt =====
-- What a start without an error leaves: every tunnel of the state runs (main.rs).
use mathlib.Core.Path.{subst}
use lantun.Tunnel.{client_tunnel, host_tunnel, profile}
use lantun.Cli.Starting.Made.{create_clients-makes, ClientMade, create_hosts-makes, HostMade}
use lantun.Host.{HostState, HostTunnel}
use lantun.Map.{get}
use lantun.Client.{key_eq, ClientState, TunnelKey, ClientTunnel}
use lantun.Cli.Starting.{start_all, connect_clients, start_hosts, Surroundings}
use lantun.Base.{
  suc, ℕ, ap, pair_ok, ◌>>=◌, bind_ok, All-map, All, ◌∙◌, chain_ok, refl, bytes_eq, inr, inl, ◌==◌,
  Bool-cases, ◌∷◌, [], panic, err, arith, some, true, ok, Bytes, ◌≡◌, Text, Outcome,
}
use lantun.Runtime.{Runtime}
use lantun.Cli.Config.{
  create_clients, create_hosts, ClientTunnelEntry, HostTunnelEntry, create_state, LanTun,
  LanTunConfig, client_error, host_error, Codecs,
}
use lantun.Host
use lantun.Client

module _ (C : Codecs) (R : Runtime) where
  -- The tunnel runs, under this secret, and nobody is connected yet.
  abbrev pub HostRuns : HostTunnel R → R.SecretKey → Type 0
  HostRuns t secret =
      let said = profile (host_tunnel R) t in
      (said.is_running ≡ true)
      × (said.num_active_connections ≡ 0)
      × (said.secret ≡ R.secret_bytes secret)

  start-runs :
      (endpoint : Outcome Text R.Endpoint) (stop_tx : R.StopSender) (t : HostTunnel R)
      → (Host.start R endpoint stop_tx t).1 ≡ ok tt
      → HostRuns (Host.start R endpoint stop_tx t).0 t.secret
  unfolding Host.start Host.num_active_connections
  start-runs (ok endpoint) stop_tx t e = ground arith
  start-runs (err m) stop_tx t e = ground arith
  start-runs panic stop_tx t e = ground arith

  connect-runs :
      (endpoint : Outcome Text R.Endpoint) (conn : Outcome Text R.Connection)
      (stop_tx : R.StopSender) (t : ClientTunnel R)
      → (Client.connect R endpoint conn stop_tx t).1 ≡ ok tt
      → profile (client_tunnel R) (Client.connect R endpoint conn stop_tx t).0
        ≡ record (profile (client_tunnel R) t) { is_running = true; num_active_connections = 0 }
  unfolding Client.connect Client.num_active_connections
  connect-runs (ok endpoint) (ok conn) stop_tx t e = ground arith
  connect-runs (ok endpoint) (err m) stop_tx t e = ground arith
  connect-runs (ok endpoint) panic stop_tx t e = ground arith
  connect-runs (err m) conn stop_tx t e = ground arith
  connect-runs panic conn stop_tx t e = ground arith

  module _ (S : Surroundings C R) where
    pub start_hosts-get :
        (n : ℕ) (secret : Bytes) (m started : HostState R) (t : HostTunnel R)
        → start_hosts C R S n m ≡ ok started
        → get secret m ≡ some t
        → (u : HostTunnel R) × (get secret started ≡ some u) × HostRuns u t.secret
    unfolding start_hosts get
    start_hosts-get n secret [] started t e h = cc
    start_hosts-get n secret ((k, v) ∷ more) started t e h =
        let t' = (Host.start R (S.host_endpoint n v) (S.host_stop n v) v).0 in
        let (done, e1, more', e3, same) =
          chain_ok host_error (Host.start R (S.host_endpoint n v) (S.host_stop n v) v).1
            (start_hosts C R S (suc n) more) (λ m. (k, t') ∷ m) e in
        let run = start-runs (S.host_endpoint n v) (S.host_stop n v) v e1 in
        elim (Bool-cases (secret == k)) [
          | inl at ↦
              let here : v ≡ t = ground arith in
              (t', rw (same, at) refl, subst (λ w. HostRuns t' w.secret) here run)
          | inr off ↦
              let (w, found, runs) =
                start_hosts-get (suc n) secret more more' t e3 (ground arith) in
              (w, rw (same, off) found, runs)
        ]

    pub connect_clients-get :
        (n : ℕ) (key : TunnelKey) (m started : ClientState R) (t : ClientTunnel R)
        → connect_clients C R S n m ≡ ok started
        → get key m ≡ some t
        → (u : ClientTunnel R) × (get key started ≡ some u)
          × (profile (client_tunnel R) u ≡ record (profile (client_tunnel R) t) {
            is_running = true;
            num_active_connections = 0;
          })
    unfolding connect_clients get
    connect_clients-get n key [] started t e h = cc
    connect_clients-get n key ((k, v) ∷ more) started t e h =
        let (t', r) =
          Client.connect R (S.client_endpoint n v) (S.client_connection n v) (S.client_stop n v)
            v in
        let (done, e1, more', e3, same) =
          chain_ok client_error r (connect_clients C R S (suc n) more) (λ m. (k, t') ∷ m) e in
        let said =
          connect-runs (S.client_endpoint n v) (S.client_connection n v) (S.client_stop n v) v e1 in
        elim (Bool-cases (key == k)) [
          | inl at ↦
              let here : v ≡ t = ground arith in
              (
                t',
                rw (same, at) refl,
                said
                    ∙ ap
                        (λ w. record (profile (client_tunnel R) w) {
                          is_running = true;
                          num_active_connections = 0;
                        })
                        here,
              )
          | inr off ↦
              let (w, found, kept) =
                connect_clients-get (suc n) key more more' t e3 (ground arith) in
              (w, rw (same, off) found, kept)
        ]

    abbrev pub HostUp : LanTun C R → HostTunnelEntry → Type 0
    HostUp state t =
        (b : Bytes) × (u : HostTunnel R) × (C.hex_decode t.private_secret ≡ ok b)
        × (get b state.host ≡ some u)
        × HostRuns u (R.secret_from b)

    abbrev pub ClientUp : LanTun C R → ClientTunnelEntry → Type 0
    ClientUp state t =
        (b : Bytes) × (key : R.PublicKey) × (u : ClientTunnel R) × (C.hex_decode t.secret ≡ ok b)
        × (R.public_from b ≡ some key)
        × (get (t.local, t.protocol) state.client ≡ some u)
        × (profile (client_tunnel R) u ≡ record {
          secret = R.public_bytes key;
          protocol = t.protocol;
          is_running = true;
          name = t.name;
          num_active_connections = 0;
          addr = t.local;
        })

    start_all-parts :
        (config : LanTunConfig) (state : LanTun C R)
        → start_all C R S config ≡ ok state
        → (hosts : HostState R) × (clients : ClientState R) × (create_hosts C R config.host_tunnels
              []
            ≡ ok hosts)
          × (create_clients C R config.client_tunnels [] ≡ ok clients)
          × (start_hosts C R S 0 hosts ≡ ok state.host)
          × (connect_clients C R S 0 clients ≡ ok state.client)
    unfolding start_all create_state
    start_all-parts config state e =
        let (made, e1, e2) =
          bind_ok (create_state C R config)
            (λ made. do
              host ← start_hosts C R S 0 made.host
              client ← connect_clients C R S 0 made.client
              ok (record { host = host; client = client }))
            e in
        let (hosts, clients, e3, e4, same) =
          pair_ok (create_hosts C R config.host_tunnels [])
            (create_clients C R config.client_tunnels [])
            (λ host client. record { host = host; client = client }) e1 in
        let (host, client, e5, e6, same') =
          pair_ok (start_hosts C R S 0 made.host) (connect_clients C R S 0 made.client)
            (λ host client. record { host = host; client = client }) e2 in
        (
          hosts,
          clients,
          e3,
          e4,
          rw (ap (λ s. s.host) same) e5 ∙ ap ok (ap (λ s. s.host) same'),
          rw (ap (λ s. s.client) same) e6 ∙ ap ok (ap (λ s. s.client) same'),
        )

    -- If the start of all tunnels gives no error, then under the secret of each host entry there
    -- is a tunnel that runs, has that secret and counts no connections; and under the address and
    -- protocol of each client entry there is a tunnel that says, by the trait TunnelCommon, that
    -- it has the secret, protocol, name and address of the entry, runs, and counts no connections.
    pub start_all-Up :
        (config : LanTunConfig) (state : LanTun C R)
        → start_all C R S config ≡ ok state
        → All (HostUp state) config.host_tunnels × All (ClientUp state) config.client_tunnels
    start_all-Up config state e =
        let (hosts, clients, e1, e2, e3, e4) = start_all-parts config state e in
        (
          All-map (HostMade C R hosts) (HostUp state) config.host_tunnels
              (λ t (b, u, decoded, found, keyed).
                let (w, up, runs) = start_hosts-get 0 b hosts state.host u e3 found in
                (b, w, decoded, up, subst (HostRuns w) keyed runs))
              (create_hosts-makes C R config.host_tunnels [] hosts e1),
          All-map (ClientMade C R clients) (ClientUp state) config.client_tunnels
              (λ t (b, key, decoded, keyed, found).
                let (w, up, said) =
                  connect_clients-get 0 (t.local, t.protocol) clients state.client
                    (Client.made R t.local t.name key t.protocol) e4 found in
                (b, key, w, decoded, keyed, up, said))
              (create_clients-makes C R config.client_tunnels [] clients tt e2).0,
        )
