-- ===== src/Tests/Commands.antt =====
-- The theorems on the commands and the start at concrete inputs (main.rs, config.rs), and runs.
use lantun.Cli.Failing.{main-After, After}
use lantun.Cli.Starting.Paired.{
  printed_secrets, printed_secret-dials, dialing, host_tunnel, hosting,
}
use lantun.Addr.{addr_eq}
use lantun.Cli.Starting.Enabled.{set_enabled-create_state, set_enabled}
use lantun.Client.{key_eq}
use lantun.Map.{contains_key, insert, get}
use lantun.Cli.Starting.Good.{edits-create_state}
use lantun.Cli.Starting.Broken.{add_client-wrong}
use lantun.Cli.Starting.Running.{start_all-Up, ClientUp, HostUp}
use lantun.Cli.Starting.{connect_clients, start_hosts, Surroundings, start_all}
use lantun.Host
use lantun.Client
use lantun.Tests.Keys.{bob, repeat, keys-IsRuntime, keys, Key}
use mathlib.Core.Path.{subst}
use lantun.Protocol.{protocol_eq, tcp, udp}
use lantun.Tests.Wire.{decoded-encoded, decoded, encoded}
use lantun.Tests.Toy.{app, game, toy}
use lantun.Cli.Config.{
  save_config, message, load_config, create_clients, create_hosts, create_state, LanTun,
  LanTunConfig, empty_config, Codecs, Disk, IsCodecs,
}
use lantun.Base.{
  false, bytes_eq, some, true, All, nat_eq, ok_unique, ◌==◌, if◌then◌else◌, ◌≡◌, codes, err, ok,
  refl, Outcome, [], arith, none, ◌∷◌, Bytes, List, Text,
}
use lantun.Cli.Files.{main-Leaves, runs-Holds, runs, Holds, Leaves}
use lantun.Cli.Commands.{
  run_create_host, any, client_entry, host_entry, main, remove_tunnel, add_client_tunnel,
  create_host_tunnel, Action,
}
use lantun.Cli.Edits.{edit, edits-IsTidy, edits, IsTidy}

-- A format for bytes: an `x` before them.
abbrev unhex : Text → Outcome Text Bytes
unhex [] = err (codes "empty")
unhex (c ∷ s) = if c == b'x' then ok s else err (codes "no hex")

abbrev codecs : Codecs
codecs = record {
  hex_encode = λ b. b'x' ∷ b;
  hex_decode = unhex;
  toml_to_string = λ c. ok (encoded c);
  toml_from_str = decoded;
}

codecs-IsCodecs : IsCodecs codecs
codecs-IsCodecs = record {
  hex_decode-hex_encode = λ b. ground arith;
  toml_to_string_total = λ c. (encoded c, refl);
  toml_from_str-toml_to_string =
      λ c s e. subst (λ s. decoded s ≡ ok c) (ok_unique refl e) (decoded-encoded c);
}

abbrev alice : Bytes
alice = repeat 32

abbrev empty_disk : Disk
empty_disk = record { contents = none; mkdir_error = none; read_error = none; write_error = none }

empty_disk-Holds : Holds codecs empty_config empty_disk
empty_disk-Holds = record { works = (refl, refl, refl); holds = refl }

abbrev add_mc : Action
add_mc = create_host_tunnel game tcp (codes "mc")

abbrev add_web : Action
add_web = add_client_tunnel (b'x' ∷ alice) app udp (codes "web")

abbrev add_short : Action
add_short = add_client_tunnel (b'x' ∷ 1 ∷ []) app udp (codes "web")

main-Leaves_example :
    Leaves codecs codecs-IsCodecs toy
      (ok tt)
      (edit codecs toy alice add_mc empty_config)
      (main codecs toy alice add_mc empty_disk)
main-Leaves_example =
    main-Leaves codecs codecs-IsCodecs toy alice add_mc empty_config empty_disk empty_disk-Holds

abbrev session : List (Bytes × Action)
session =
    (alice, add_mc) ∷ (alice, add_web) ∷ (alice, add_mc) ∷ (alice, remove_tunnel (codes "mc")) ∷ []

runs-Holds_example :
    Holds codecs
      (edits codecs toy session empty_config)
      (runs codecs codecs-IsCodecs toy session empty_disk)
runs-Holds_example =
    runs-Holds codecs codecs-IsCodecs toy session empty_config empty_disk empty_disk-Holds

edits-IsTidy_example : IsTidy (edits codecs toy session empty_config)
edits-IsTidy_example =
    edits-IsTidy codecs toy session empty_config (record {
      hosts_sorted = tt;
      hosts_distinct = tt;
      clients_sorted = tt;
      clients_distinct = tt;
    })

abbrev key_session : List (Key × Action)
key_session = (bob, add_mc) ∷ (bob, add_web) ∷ (bob, remove_tunnel (codes "mc")) ∷ []

edits-create_state_example :
    (state : LanTun codecs keys) × (create_state codecs keys
        (edits codecs keys key_session empty_config)
      ≡ ok state)
unfolding nat_eq
edits-create_state_example =
    edits-create_state codecs keys codecs-IsCodecs keys-IsRuntime key_session (tt, (refl, (tt, tt)))

add_client-wrong_example :
    let ran = main codecs keys bob add_short empty_disk in
    (ran.result ≡ ok tt)
    × (c' : LanTunConfig) × Holds codecs c' ran.disk
    × ((state : LanTun codecs keys) → ¬ (create_state codecs keys c' ≡ ok state))
unfolding nat_eq any
add_client-wrong_example =
    add_client-wrong codecs keys codecs-IsCodecs bob (b'x' ∷ 1 ∷ []) (1 ∷ []) app udp (codes "web")
      empty_config empty_disk empty_disk-Holds refl refl refl

-- A configuration with a host tunnel and a client tunnel, and its state after the start.
abbrev both : LanTunConfig
both = record {
  host_tunnels = host_entry codecs toy alice game tcp (codes "mc") ∷ [];
  client_tunnels = client_entry codecs toy alice app udp (codes "web") ∷ [];
}

abbrev around : Surroundings codecs toy
around = record {
  host_endpoint = λ n t. ok 1;
  host_stop = λ n t. 2;
  client_endpoint = λ n t. ok 3;
  client_connection = λ n t. ok 4;
  client_stop = λ n t. 5;
}

abbrev both_state : LanTun codecs toy
both_state = record {
  host =
      (
        alice,
        record (Host.made toy game (codes "mc") alice tcp) {
          is_open = true;
          running_props = some (record { connections = []; endpoint = 1; stop_tx = 2 });
        },
      )
      ∷ [];
  client =
      (
        (app, udp),
        record (Client.made toy app (codes "web") alice udp) {
          is_connected = true;
          running_props =
              some (record { local_connections = []; endpoint = 3; connection = 4; stop_tx = 5 });
        },
      )
      ∷ [];
}

both_starts : start_all codecs toy around both ≡ ok both_state
unfolding start_all start_hosts connect_clients create_state create_hosts create_clients
    Host.create_tunnel Host.start Client.create_tunnel Client.connect get insert contains_key key_eq
    bytes_eq
both_starts = refl

start_all-Up_example :
    All (HostUp codecs toy around both_state) both.host_tunnels
    × All (ClientUp codecs toy around both_state) both.client_tunnels
start_all-Up_example = start_all-Up codecs toy around both both_state both_starts

set_enabled-create_state_example :
    create_state codecs toy (set_enabled false both) ≡ create_state codecs toy both
set_enabled-create_state_example = set_enabled-create_state codecs toy false both

-- A disk without a file.
abbrev blank : Disk
blank = record { contents = none; mkdir_error = none; read_error = none; write_error = none }

printed_secret-dials_example :
    let t = host_tunnel codecs keys bob game tcp (codes "mc") in
    let ran = run_create_host codecs keys bob game tcp (codes "mc") empty_config blank in
    (create_state codecs keys (hosting codecs keys bob game tcp (codes "mc"))
      ≡ ok (record { host = (bob.0, t) ∷ []; client = [] }))
    × ((secret : Text) × (printed_secrets ran.lines ≡ secret ∷ secret ∷ [])
        × (create_state codecs keys (dialing codecs keys bob secret app udp (codes "web"))
            ≡ ok (record {
              host = [];
              client =
                  ((app, udp), Client.made keys app (codes "web") (keys.public_key t.secret) udp)
                  ∷ [];
            })))
unfolding run_create_host any save_config
printed_secret-dials_example =
    printed_secret-dials codecs keys codecs-IsCodecs keys-IsRuntime bob bob game app tcp udp
      (codes "mc") (codes "web") blank refl

-- A disk that holds a configuration, and whose reads fail.
abbrev unreadable : Disk
unreadable = record {
  contents = some (encoded both);
  mkdir_error = none;
  read_error = some (codes "denied");
  write_error = none;
}

main-After_example :
    let ran = main codecs toy alice add_mc unreadable in
    After codecs codecs-IsCodecs both (edit codecs toy alice add_mc both) none ran.result ran.disk
main-After_example =
    main-After codecs codecs-IsCodecs toy alice add_mc both unreadable (decoded-encoded both)

main-After_run : (main codecs toy alice add_mc unreadable).result ≡ err (message (codes "denied"))
unfolding main load_config
main-After_run = refl
