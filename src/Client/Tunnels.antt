-- ===== src/Client/Tunnels.antt =====
-- `ClientState`: one tunnel to a local address and protocol (lantun-core/src/client.rs).
use lantun.Tunnel.{client_tunnel, profile}
use lantun.Map.Laws.{
  contains_key-get, insert-NodupKeys, get-insert, contains_key_of_get, contains_key-iff_get,
}
use lantun.Map.{contains_key, get, insert, NodupKeys}
use lantun.Protocol.{TunnelProtocol}
use lantun.Base.{
  refl, ◌==◌, if◌then◌else◌, true, false, Option-cases, inr, inl, Bool-cases, ◌⊎◌, ok, panic, err,
  some, ◌≡◌, none, arith, ◌≢◌, Bytes, Text,
}
use lantun.Addr.{SocketAddr}
use lantun.Client.{
  is_running, num_active_connections, connect, TunnelKey, key_eq, made, tunnel_already_exists,
  ClientTunnel, get_tunnel, create_tunnel, ClientState,
}
use lantun.Runtime.{IsRuntime, Runtime}

module _ (R : Runtime) where
  -- What `create_tunnel` does on each branch.
  pub record Branches (tunnels : ClientState R) (local_addr : SocketAddr) (name : Text)
      (secret : Bytes) (protocol : TunnelProtocol) : Type 0 where
    -- A second tunnel to an address and protocol is refused, and nothing changes.
    pub taken :
        get_tunnel R tunnels local_addr protocol ≢ none
        → create_tunnel R tunnels local_addr name secret protocol
          ≡ (tunnels, err (tunnel_already_exists local_addr protocol))
    -- Bytes that are no key are a panic.
    pub no_key :
        get_tunnel R tunnels local_addr protocol ≡ none
        → R.public_from secret ≡ none
        → create_tunnel R tunnels local_addr name secret protocol ≡ (tunnels, panic)
    -- Else the new tunnel is handed out.
    pub free :
        (key : R.PublicKey)
        → get_tunnel R tunnels local_addr protocol ≡ none
        → R.public_from secret ≡ some key
        → create_tunnel R tunnels local_addr name secret protocol ≡ (
          insert (local_addr, protocol) (made R local_addr name key protocol) tunnels,
          ok (made R local_addr name key protocol),
        )

  pub create_tunnel-Branches :
      (tunnels : ClientState R) (local_addr : SocketAddr) (name : Text) (secret : Bytes)
      (protocol : TunnelProtocol)
      → Branches tunnels local_addr name secret protocol
  unfolding create_tunnel get_tunnel
  create_tunnel-Branches tunnels local_addr name secret protocol = record {
    taken = λ h. ground (arith, contains_key-iff_get (local_addr, protocol) tunnels);
    no_key = λ h e. ground (arith, contains_key-iff_get (local_addr, protocol) tunnels);
    free = λ key h e.
        rw (contains_key_of_get (local_addr, protocol) tunnels h, e)
          (ground (
            arith,
            get-insert (local_addr, protocol) (local_addr, protocol)
                (made R local_addr name key protocol) tunnels,
          ));
  }

  -- With keys that meet their laws, a secret that is a public key, and an address and protocol
  -- that are not taken: create_tunnel of a client hands out a tunnel that says, by the trait
  -- TunnelCommon, that it has the given secret, protocol, name and address, does not run and
  -- counts no connections, and that connect with a bound endpoint and a dialled connection sets
  -- running; under its address and protocol that tunnel is then found, and under any other what
  -- was found before; and a second create_tunnel there, with any name and secret, is refused and
  -- changes nothing.
  pub create_tunnel-connects :
      (tunnels : ClientState R) (local_addr : SocketAddr) (name : Text) (secret : Bytes)
      (protocol : TunnelProtocol) (key : R.PublicKey)
      → IsRuntime R
      → get_tunnel R tunnels local_addr protocol ≡ none
      → R.public_from secret ≡ some key
      → let (tunnels', handed) = create_tunnel R tunnels local_addr name secret protocol in
        (t : ClientTunnel R) × (handed ≡ ok t)
        × (profile (client_tunnel R) t ≡ record {
          secret = secret;
          protocol = protocol;
          is_running = false;
          name = name;
          num_active_connections = 0;
          addr = local_addr;
        })
        × ((endpoint : R.Endpoint) (conn : R.Connection) (stop_tx : R.StopSender)
            → ((connect R (ok endpoint) (ok conn) stop_tx t).1 ≡ ok tt)
              × (is_running R (connect R (ok endpoint) (ok conn) stop_tx t).0 ≡ true))
        × ((k : TunnelKey)
            → get_tunnel R tunnels' k.0 k.1
              ≡ (if k == (local_addr, protocol) then some t else get_tunnel R tunnels k.0 k.1))
        × ((other : Text) (secret' : Bytes)
            → create_tunnel R tunnels' local_addr other secret' protocol
              ≡ (tunnels', err (tunnel_already_exists local_addr protocol)))
  unfolding connect num_active_connections
  create_tunnel-connects tunnels local_addr name secret protocol key K fresh is_key =
      let t = made R local_addr name key protocol in
      let here : TunnelKey = (local_addr, protocol) in
      let free =
        (create_tunnel-Branches tunnels local_addr name secret protocol).free key fresh is_key in
      let found = λ (k : TunnelKey). get-insert k here t tunnels in
      rw free (
        t,
        refl,
        rw (K.public_bytes-public_from secret key is_key) refl,
        λ endpoint conn stop_tx. (refl, refl),
        λ k. unfold get_tunnel in found k,
        λ other secret'.
            (create_tunnel-Branches (insert here t tunnels) local_addr other secret' protocol).taken
              (unfold get_tunnel in ground (arith, found here)),
      )

  create_tunnel-cases :
      (tunnels : ClientState R) (local_addr : SocketAddr) (name : Text) (secret : Bytes)
      (protocol : TunnelProtocol)
      → let tunnels' = (create_tunnel R tunnels local_addr name secret protocol).0 in
        (tunnels' ≡ tunnels)
        ⊎ ((key : R.PublicKey) × (get (local_addr, protocol) tunnels ≡ none)
            × (tunnels'
                ≡ insert (local_addr, protocol) (made R local_addr name key protocol) tunnels))
  unfolding create_tunnel
  create_tunnel-cases tunnels local_addr name secret protocol =
      elim (Bool-cases (contains_key (local_addr, protocol) tunnels)) [
        | inl e ↦ inl (ground arith)
        | inr e ↦ elim (Option-cases (R.public_from secret)) [
          | inl f ↦ inl (ground arith)
          | inr (key, f) ↦
              inr (key, contains_key-get (local_addr, protocol) tunnels e, ground arith)
        ]
      ]

  -- create_tunnel of a client keeps the keys of the map distinct, and every tunnel that was found
  -- is found unchanged.
  pub create_tunnel-keeps :
      (tunnels : ClientState R) (local_addr : SocketAddr) (name : Text) (secret : Bytes)
      (protocol : TunnelProtocol)
      → NodupKeys tunnels
      → let tunnels' = (create_tunnel R tunnels local_addr name secret protocol).0 in
        NodupKeys tunnels'
        × ((a : SocketAddr) (p : TunnelProtocol) (t : ClientTunnel R)
            → get_tunnel R tunnels a p ≡ some t
            → get_tunnel R tunnels' a p ≡ some t)
  unfolding get_tunnel
  create_tunnel-keeps tunnels local_addr name secret protocol u =
      elim (create_tunnel-cases tunnels local_addr name secret protocol) [
        | inl same ↦ rw same (u, λ a p t h. h)
        | inr (key, fresh, same) ↦ rw same (
          insert-NodupKeys (local_addr, protocol) (made R local_addr name key protocol) tunnels u,
          λ a p t h. kept key fresh (a, p) t h,
        )
      ]
    where
      kept :
          (key : R.PublicKey)
          → get (local_addr, protocol) tunnels ≡ none
          → (k : TunnelKey) (t : ClientTunnel R) → get k tunnels ≡ some t
          → get k (insert (local_addr, protocol) (made R local_addr name key protocol) tunnels)
            ≡ some t
      kept key fresh k t h =
          ground (
            arith,
            get-insert k (local_addr, protocol) (made R local_addr name key protocol) tunnels,
          )

  -- A call that hands out a tunnel leaves it in the map.
  pub create_tunnel-finds :
      (tunnels : ClientState R) (local_addr : SocketAddr) (name : Text) (secret : Bytes)
      (protocol : TunnelProtocol) (t : ClientTunnel R)
      → (create_tunnel R tunnels local_addr name secret protocol).1 ≡ ok t
      → (key : R.PublicKey) × (R.public_from secret ≡ some key)
        × (t ≡ made R local_addr name key protocol)
        × (get (local_addr, protocol) (create_tunnel R tunnels local_addr name secret protocol).0
            ≡ some t)
  unfolding create_tunnel
  create_tunnel-finds tunnels local_addr name secret protocol t e =
      elim (Bool-cases (contains_key (local_addr, protocol) tunnels)) [
        | inl h ↦ ground arith
        | inr h ↦ elim (Option-cases (R.public_from secret)) [
          | inl f ↦ ground arith
          | inr (key, f) ↦
              let put =
                get-insert (local_addr, protocol) (local_addr, protocol)
                  (made R local_addr name key protocol) tunnels in
              (key, f, ground (arith, put), ground (arith, put))
        ]
      ]
