-- ===== src/Cli/Starting/Made.antt =====
-- The state made from a configuration has every tunnel of it (config.rs).
use lantun.Client.Tunnels.{create_tunnel-finds, create_tunnel-keeps}
use lantun.Protocol.{TunnelProtocol}
use lantun.Addr.{SocketAddr}
use lantun.Host.Tunnels.{create_tunnel-made}
use lantun.Map.{NodupKeys, get}
use lantun.Base.{
  sym, ap, ok_unique, refl, inr, map_err_ok, nat_eq, err, inl, ◌>>=◌, Bool-cases, ◌==◌, ◌∙◌, codes,
  if◌then◌else◌, map_err, [], bind_ok, arith, bytes_eq, ◌∷◌, All, length, some, ok, ◌≡◌, Bytes,
  List, Text,
}
use lantun.Host.{HostTunnel, HostState}
use lantun.Client.{key_eq, ClientTunnel, get_tunnel, ClientState}
use lantun.Runtime.{Runtime}
use lantun.Cli.Config.{
  client_error, added, message, create_clients, secret_bytes, ClientTunnelEntry, HostTunnelEntry,
  create_hosts, Codecs,
}
use lantun.Host
use lantun.Client

module _ (C : Codecs) (R : Runtime) where
  checked-length :
      (wrong_length : Text) (b : Bytes) {c : Bytes}
      → (if length b == 32 then ok b else err (message wrong_length)) ≡ ok c
      → (b ≡ c) × (length b ≡ 32)
  checked-length wrong_length b e = ground arith

  -- A secret that passes is hex text of 32 bytes.
  pub secret_bytes-decodes :
      (wrong_length s : Text) {b : Bytes}
      → secret_bytes C wrong_length s ≡ ok b
      → (C.hex_decode s ≡ ok b) × (length b ≡ 32)
  secret_bytes-decodes wrong_length s {b} e =
      let (c, e1, e2) =
        bind_ok (map_err message (C.hex_decode s))
          (λ b. if length b == 32 then ok b else err (message wrong_length)) e in
      let (same, long) = checked-length wrong_length c e2 in
      (map_err_ok message (C.hex_decode s) e1 ∙ ap ok same, sym (ap length same) ∙ long)

  create_hosts-cons :
      (entry : HostTunnelEntry) (ts : List HostTunnelEntry) (host made : HostState R)
      → create_hosts C R (entry ∷ ts) host ≡ ok made
      → (b : Bytes) × (secret_bytes C (codes "Invalid private secret length") entry.private_secret
          ≡ ok b)
        × (create_hosts C R ts (Host.create_tunnel R host entry.local entry.name b entry.protocol).0
            ≡ ok made)
  unfolding create_hosts
  create_hosts-cons entry ts host made e =
      bind_ok (secret_bytes C (codes "Invalid private secret length") entry.private_secret)
        (λ b.
          create_hosts C R ts (Host.create_tunnel R host entry.local entry.name b entry.protocol).0)
        e

  -- Under each key there stands a tunnel of that secret.
  create_hosts-keeps :
      (ts : List HostTunnelEntry) (host made : HostState R) (secret : Bytes) (t : HostTunnel R)
      → create_hosts C R ts host ≡ ok made
      → get secret host ≡ some t
      → t.secret ≡ R.secret_from secret
      → (u : HostTunnel R) × (get secret made ≡ some u) × (u.secret ≡ R.secret_from secret)
  create_hosts-keeps [] host made secret t e h k = unfold create_hosts in (t, ground arith, k)
  create_hosts-keeps (entry ∷ ts) host made secret t e h k =
      let (b, decoded, rest) = create_hosts-cons entry ts host made e in
      let (host', handed) = Host.create_tunnel R host entry.local entry.name b entry.protocol in
      let looked = (create_tunnel-made R host entry.local entry.name b entry.protocol).1 secret in
      elim (Bool-cases (secret == b)) [
        | inl at ↦
            create_hosts-keeps ts host' made secret
              (Host.made R entry.local entry.name b entry.protocol) rest
              (unfold Host.get_tunnel in (looked ∙ rw at refl)) (ground arith)
        | inr off ↦
            create_hosts-keeps ts host' made secret t rest
              (unfold Host.get_tunnel in (looked ∙ rw (off, h) refl)) k
      ]

  abbrev pub HostMade : HostState R → HostTunnelEntry → Type 0
  HostMade m t =
      (b : Bytes) × (u : HostTunnel R) × (C.hex_decode t.private_secret ≡ ok b)
      × (get b m ≡ some u)
      × (u.secret ≡ R.secret_from b)

  -- Under each host secret of the configuration there is a tunnel.
  pub create_hosts-makes :
      (ts : List HostTunnelEntry) (host made : HostState R)
      → create_hosts C R ts host ≡ ok made
      → All (HostMade made) ts
  create_hosts-makes [] host made e = tt
  create_hosts-makes (entry ∷ ts) host made e =
      let (b, decoded, rest) = create_hosts-cons entry ts host made e in
      let (host', handed) = Host.create_tunnel R host entry.local entry.name b entry.protocol in
      let looked = (create_tunnel-made R host entry.local entry.name b entry.protocol).1 b in
      let (u, found, keyed) =
        create_hosts-keeps ts host' made b (Host.made R entry.local entry.name b entry.protocol)
          rest (unfold Host.get_tunnel in (looked ∙ ground arith)) refl in
      (
        (b, u, (secret_bytes-decodes _ entry.private_secret decoded).0, found, keyed),
        create_hosts-makes ts host' made rest,
      )

  abbrev pub ClientMade : ClientState R → ClientTunnelEntry → Type 0
  ClientMade m t =
      (b : Bytes) × (key : R.PublicKey) × (C.hex_decode t.secret ≡ ok b)
      × (R.public_from b ≡ some key)
      × (get (t.local, t.protocol) m ≡ some (Client.made R t.local t.name key t.protocol))

  -- One entry: its secret passes, and `create_tunnel` hands out a tunnel.
  pub create_clients-cons :
      (entry : ClientTunnelEntry) (ts : List ClientTunnelEntry) (client made : ClientState R)
      → create_clients C R (entry ∷ ts) client ≡ ok made
      → (b : Bytes) × (u : ClientTunnel R) × (secret_bytes C
            (codes "Invalid public secret length")
            entry.secret
          ≡ ok b)
        × ((Client.create_tunnel R client entry.local entry.name b entry.protocol).1 ≡ ok u)
        × (create_clients C R ts
              (Client.create_tunnel R client entry.local entry.name b entry.protocol).0
            ≡ ok made)
  unfolding create_clients
  create_clients-cons entry ts client made e =
      let (b, decoded, rest) =
        bind_ok (secret_bytes C (codes "Invalid public secret length") entry.secret)
          (λ b.
            added C R (Client.create_tunnel R client entry.local entry.name b entry.protocol)
            >>= create_clients C R ts)
          e in
      let (t, r) = Client.create_tunnel R client entry.local entry.name b entry.protocol in
      let (client', put, more) = bind_ok (added C R (t, r)) (create_clients C R ts) rest in
      let (u, handed, same) = bind_ok (map_err client_error r) (λ _. ok t) put in
      (b, u, decoded, map_err_ok client_error r handed, rw (ok_unique refl same) more)

  -- Each client tunnel of the configuration is there, under its address and protocol.
  pub create_clients-makes :
      (ts : List ClientTunnelEntry) (client made : ClientState R)
      → NodupKeys client
      → create_clients C R ts client ≡ ok made
      → All (ClientMade made) ts
        × ((a : SocketAddr) (p : TunnelProtocol) (t : ClientTunnel R)
            → Client.get_tunnel R client a p ≡ some t
            → Client.get_tunnel R made a p ≡ some t)
  unfolding Client.get_tunnel create_clients
  create_clients-makes [] client made h e = (tt, λ a p t k. ground arith)
  create_clients-makes (entry ∷ ts) client made h e =
      let (b, u, decoded, handed, rest) = create_clients-cons entry ts client made e in
      let (client', r) = Client.create_tunnel R client entry.local entry.name b entry.protocol in
      let (nodup, keeps) = create_tunnel-keeps R client entry.local entry.name b entry.protocol h in
      let (key, keyed, same, found) =
        create_tunnel-finds R client entry.local entry.name b entry.protocol u handed in
      let (all, kept) = create_clients-makes ts client' made nodup rest in
      (
        (
          (
            b,
            key,
            (secret_bytes-decodes _ entry.secret decoded).0,
            keyed,
            kept entry.local entry.protocol u found ∙ ap some same,
          ),
          all,
        ),
        λ a p t k. kept a p t (keeps a p t k),
      )
