-- ===== src/Cli/Starting/Secrets.antt =====
-- The state can be made of a configuration whose secrets are fit for use (config.rs).
use lantun.Map.Laws.{contains_key-get, contains_key-insert}
use lantun.Client.Tunnels.{create_tunnel-Branches}
use lantun.Cli.Entries.{IsDistinct}
use lantun.Host.{HostState}
use lantun.Map.{insert, contains_key}
use lantun.Base.{
  none, inr, inl, Option-cases, panic, err, if◌then◌else◌, nat_eq, refl, [], true, ◌>>=◌, arith,
  codes, length, map_err, not, some, ◌∷◌, false, ok, ◌&&◌, Bytes, ◌==◌, ◌≡◌, Bool, List, Text,
  Outcome,
}
use lantun.Cli.Commands.{client_at, any}
use lantun.Protocol.{TunnelProtocol, protocol_eq}
use lantun.Runtime.{Runtime}
use lantun.Cli.Config.{
  message, ClientTunnelEntry, HostTunnelEntry, create_clients, create_hosts, Codecs,
}
use lantun.Addr.{SocketAddr, addr_eq}
use lantun.Host
use lantun.Client
use lantun.Client.{TunnelKey, ClientTunnel, ClientState, key_eq}

key_eq_lem : (j k : TunnelKey) → (j == k) ≡ (j.0 == k.0 && j.1 == k.1)
key_eq_lem (a, p) (b, q) = ground arith

module _ (C : Codecs) (R : Runtime) where
  abbrev pub wrong_bytes : Outcome Text Bytes → Bool
  wrong_bytes (ok b) = not (length b == 32)
  wrong_bytes _ = true

  abbrev pub no_key : Outcome Text Bytes → Bool
  no_key (ok b) = elim (R.public_from b) [ none ↦ true | some _ ↦ not (length b == 32) ]
  no_key _ = true

  -- A host entry whose secret is not 32 bytes, and a client entry whose secret is no public key.
  abbrev pub bad_host : HostTunnelEntry → Bool
  bad_host t = wrong_bytes (C.hex_decode t.private_secret)

  abbrev pub bad_client : ClientTunnelEntry → Bool
  bad_client t = no_key (C.hex_decode t.secret)

  passes :
      (r : Outcome Text Bytes) (wrong_length : Text)
      → wrong_bytes r ≡ false
      → (b : Bytes) × ((map_err message r
            >>= (λ b. if length b == 32 then ok b else err (message wrong_length)))
          ≡ ok b)
  passes (ok b) wrong_length h = (b, ground arith)
  passes (err e) wrong_length h = cc
  passes panic wrong_length h = cc

  passes_key :
      (r : Outcome Text Bytes) (wrong_length : Text)
      → no_key r ≡ false
      → (b : Bytes) × (key : R.PublicKey) × (R.public_from b ≡ some key)
        × ((map_err message r
              >>= (λ b. if length b == 32 then ok b else err (message wrong_length)))
            ≡ ok b)
  passes_key (ok b) wrong_length h = elim (Option-cases (R.public_from b)) [
    | inl e ↦ ground arith
    | inr (key, e) ↦ (b, key, e, ground arith)
  ]
  passes_key (err e) wrong_length h = cc
  passes_key panic wrong_length h = cc

  pub create_hosts_total :
      (ts : List HostTunnelEntry) (host : HostState R)
      → any bad_host ts ≡ false
      → (made : HostState R) × (create_hosts C R ts host ≡ ok made)
  unfolding create_hosts any
  create_hosts_total [] host h = (host, refl)
  create_hosts_total (t ∷ ts) host h =
      let (b, e) =
        passes (C.hex_decode t.private_secret) (codes "Invalid private secret length")
          (ground arith) in
      let (made, e') =
        create_hosts_total ts (Host.create_tunnel R host t.local t.name b t.protocol).0
          (ground arith) in
      (made, rw (e, e') refl)

  -- No entry has a key of the map.
  abbrev pub taken : ClientState R → ClientTunnelEntry → Bool
  taken m t = contains_key (t.local, t.protocol) m

  taken-insert :
      (ts : List ClientTunnelEntry) (a : SocketAddr) (p : TunnelProtocol) (u : ClientTunnel R)
      (m : ClientState R)
      → any (client_at a p) ts ≡ false
      → any (taken m) ts ≡ false
      → any (taken (insert (a, p) u m)) ts ≡ false
  unfolding any
  taken-insert [] a p u m h k = refl
  taken-insert (t ∷ ts) a p u m h k = ground (
    arith,
    taken-insert ts a p u m,
    contains_key-insert (t.local, t.protocol) (a, p) u m,
    key_eq_lem (t.local, t.protocol) (a, p),
  )

  pub create_clients_total :
      (ts : List ClientTunnelEntry) (client : ClientState R)
      → any bad_client ts ≡ false
      → IsDistinct (λ x. client_at x.local x.protocol) ts
      → any (taken client) ts ≡ false
      → (made : ClientState R) × (create_clients C R ts client ≡ ok made)
  unfolding create_clients any Client.get_tunnel
  create_clients_total [] client h d k = (client, refl)
  create_clients_total (t ∷ ts) client h d k =
      let (b, key, found, e) =
        passes_key (C.hex_decode t.secret) (codes "Invalid public secret length") (ground arith) in
      let made_of =
        (create_tunnel-Branches R client t.local t.name b t.protocol).free key
          (contains_key-get (t.local, t.protocol) client (ground arith)) found in
      let (made, e') =
        create_clients_total ts
          (insert (t.local, t.protocol) (Client.made R t.local t.name key t.protocol) client)
          (ground arith) d.1 (taken-insert ts t.local t.protocol _ client d.0 (ground arith)) in
      (made, rw (e, made_of, e') refl)

  pub taken_nothing : (ts : List ClientTunnelEntry) → any (taken []) ts ≡ false
  unfolding any contains_key
  taken_nothing [] = refl
  taken_nothing (t ∷ ts) = taken_nothing ts
