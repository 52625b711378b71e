-- ===== src/Cli/Starting.antt =====
-- lantun-cli/src/main.rs without a command: the tunnels of the configuration are made and started,
-- and their tasks joined.
use lantun.Client.{ClientTunnel, ClientState}
pub mod Running
pub mod Made
pub mod Secrets
pub mod Paired
pub mod Enabled
pub mod Good
pub mod Broken
use lantun.Host
use lantun.Client
use lantun.Host.{HostState, HostTunnel}
use lantun.Runtime.{Runtime}
use lantun.Cli.Config.{
  client_error, host_error, message, create_state, LanTun, LanTunConfig, Report, Codecs,
}
use lantun.Base.{
  map_err, panic, zero, err, none, [], suc, ◌&&◌, ◌+◌, false, if◌then◌else◌, length, some, ◌>>=◌,
  Option, ok, ◌∷◌, Text, true, Bool, Outcome, List, ℕ,
}

module _ {A : Type 0} where
  -- `is_empty`
  abbrev pub is_empty : List A → Bool
  is_empty [] = true
  is_empty (x ∷ xs) = false

-- `try_join_all` over so many tasks, by their results in the order in which they end: the first
-- error is the result, and `none` is a task that is waited for.
unfoldable pub try_join_all :
    ℕ → List (Outcome Text (Unit {0})) → Option (Outcome Report (Unit {0}))
try_join_all zero ended = some (ok tt)
try_join_all (suc n) [] = none
try_join_all (suc n) (ok _ ∷ ended) = try_join_all n ended
try_join_all (suc n) (err e ∷ ended) = some (err (message e))
try_join_all (suc n) (panic ∷ ended) = some panic

module _ (C : Codecs) (R : Runtime) where
  -- What the endpoints' builders, the dialling and the new channels give for each tunnel, by the
  -- number of those before it: the results may depend on the order in which a map is gone through.
  pub record Surroundings : Type 0 where
    pub host_endpoint : ℕ → HostTunnel R → Outcome Text R.Endpoint
    pub host_stop : ℕ → HostTunnel R → R.StopSender
    pub client_endpoint : ℕ → ClientTunnel R → Outcome Text R.Endpoint
    pub client_connection : ℕ → ClientTunnel R → Outcome Text R.Connection
    pub client_stop : ℕ → ClientTunnel R → R.StopSender

  module _ (S : Surroundings) where
    -- Each tunnel is started in turn, after `n` others, up to the first that fails.
    unfoldable pub start_hosts : ℕ → HostState R → Outcome Report (HostState R)
    start_hosts n [] = ok []
    start_hosts n ((secret, t) ∷ more) =
        let (t', r) = Host.start R (S.host_endpoint n t) (S.host_stop n t) t in
        do _ ← map_err host_error r; more' ← start_hosts (suc n) more; ok ((secret, t') ∷ more')

    unfoldable pub connect_clients : ℕ → ClientState R → Outcome Report (ClientState R)
    connect_clients n [] = ok []
    connect_clients n ((key, t) ∷ more) =
        let (t', r) =
          Client.connect R (S.client_endpoint n t) (S.client_connection n t) (S.client_stop n t)
            t in
        do _ ← map_err client_error r; more' ← connect_clients (suc n) more; ok ((key, t') ∷ more')

    unfoldable pub start_all : LanTunConfig → Outcome Report (LanTun C R)
    unfolding start_hosts connect_clients
    start_all config = do
      state ← create_state C R config
      host ← start_hosts 0 state.host
      client ← connect_clients 0 state.client
      ok (record { host = host; client = client })

    -- After the start: the tasks of all tunnels are joined.
    abbrev pub join_started :
        Outcome Report (LanTun C R)
        → List (Outcome Text (Unit {0}))
        → Option (Outcome Report (Unit {0}))
    join_started (ok state) ended = try_join_all (length state.host + length state.client) ended
    join_started (err e) ended = some (err e)
    join_started panic ended = some panic

    -- `main` without a command, once the configuration is loaded; `none` is a program that runs.
    unfoldable pub run_tunnels :
        LanTunConfig → List (Outcome Text (Unit {0})) → Option (Outcome Report (Unit {0}))
    run_tunnels config ended =
        if is_empty config.host_tunnels && is_empty config.client_tunnels
        then some (ok tt)
        else join_started (start_all config) ended
