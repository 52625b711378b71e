-- ===== src/Cli/Starting/Good.antt =====
-- A configuration that the commands made can be started if the secrets given to `add-client` are
-- public keys (main.rs, config.rs).
use lantun.Cli.Entries.{any-append, any-remove_first, any-sort_by}
use lantun.Cli.Sorting.{sort_by}
use lantun.Protocol.{TunnelProtocol}
use lantun.Cli.Edits.{edits-IsTidy, edit_client, edit, edits}
use lantun.Cli.Starting.Secrets.{
  taken_nothing, create_clients_total, create_hosts_total, bad_client, bad_host, no_key,
}
use lantun.Addr.{SocketAddr}
use lantun.Base.{
  refl, ◌∙◌, panic, [], inr, ◌∷◌, err, inl, ◌++◌, arith, All, Bool-cases, false, ok, Bool, List,
  ◌≡◌, Bytes, Outcome, Text,
}
use lantun.Cli.Commands.{
  list_tunnels, client_named, host_named, remove_tunnel, client_name, host_name, client_at,
  client_entry, host_at, host_entry, create_host_tunnel, add_client_tunnel, any, Action,
}
use lantun.Runtime.{IsRuntime, Runtime}
use lantun.Cli.Config.{empty_config, LanTun, create_state, IsCodecs, LanTunConfig, Codecs}

module _ (C : Codecs) (R : Runtime) where
  -- Every secret of the configuration is fit for use.
  pub record IsGood (c : LanTunConfig) : Type 0 where
    pub hosts_good : any (bad_host C R) c.host_tunnels ≡ false
    pub clients_good : any (bad_client C R) c.client_tunnels ≡ false

  -- The secret given to `add-client` is hex text of 32 bytes that are a public key.
  abbrev pub GivesKey : Action → Type 0
  GivesKey (add_client_tunnel secret local protocol name) = no_key C R (C.hex_decode secret) ≡ false
  GivesKey _ = Unit

  module _ (L : IsCodecs C) (K : IsRuntime R) where
    host_entry-good :
        (key : R.SecretKey) (local : SocketAddr) (protocol : TunnelProtocol) (name : Text)
        → bad_host C R (host_entry C R key local protocol name) ≡ false
    host_entry-good key local protocol name =
        rw (L.hex_decode-hex_encode (R.secret_bytes key))
          (ground (arith, K.length-secret_bytes key))

    client_entry-good :
        (b : Bytes) (local : SocketAddr) (protocol : TunnelProtocol) (name : Text)
        → no_key C R (ok b) ≡ false
        → bad_client C R (client_entry C R b local protocol name) ≡ false
    client_entry-good b local protocol name h = rw (L.hex_decode-hex_encode b) h

    any-pushed :
        {A : Type 0} (name : A → Text) (p : A → Bool) (xs : List A) (t : A)
        → any p xs ≡ false
        → p t ≡ false
        → any p (sort_by name (xs ++ (t ∷ []))) ≡ false
    unfolding any
    any-pushed name p xs t h k =
        any-sort_by name p (xs ++ (t ∷ [])) ∙ any-append p xs (t ∷ []) ∙ ground arith

    edit_client-IsGood :
        (r : Outcome Text Bytes) (local : SocketAddr) (protocol : TunnelProtocol) (name : Text)
        (c : LanTunConfig)
        → no_key C R r ≡ false
        → IsGood c
        → IsGood (edit_client C R r local protocol name c)
    edit_client-IsGood (err e) local protocol name c k v = v
    edit_client-IsGood panic local protocol name c k v = v
    edit_client-IsGood (ok b) local protocol name c k v =
        elim (Bool-cases (any (client_at local protocol) c.client_tunnels)) [
          | inl e ↦ rw e v
          | inr e ↦ rw e (record {
            hosts_good = v.hosts_good;
            clients_good =
                any-pushed client_name (bad_client C R) c.client_tunnels
                  (client_entry C R b local protocol name) v.clients_good
                  (client_entry-good b local protocol name k);
          })
        ]

    edit-IsGood :
        (key : R.SecretKey) (action : Action) (c : LanTunConfig)
        → GivesKey action
        → IsGood c
        → IsGood (edit C R key action c)
    unfolding edit
    edit-IsGood key (create_host_tunnel local protocol name) c k v =
        elim (Bool-cases (any (host_at local protocol) c.host_tunnels)) [
          | inl e ↦ rw e v
          | inr e ↦ rw e (record {
            hosts_good =
                any-pushed host_name (bad_host C R) c.host_tunnels
                  (host_entry C R key local protocol name) v.hosts_good
                  (host_entry-good key local protocol name);
            clients_good = v.clients_good;
          })
        ]
    edit-IsGood key (add_client_tunnel secret local protocol name) c k v =
        edit_client-IsGood (C.hex_decode secret) local protocol name c k v
    edit-IsGood key list_tunnels c k v = v
    edit-IsGood key (remove_tunnel name) c k v =
        elim (Bool-cases (any (host_named name) c.host_tunnels)) [
          | inl e ↦ rw e (record {
            hosts_good =
                any-remove_first (bad_host C R) (host_named name) c.host_tunnels v.hosts_good;
            clients_good = v.clients_good;
          })
          | inr e ↦ rw e (record {
            hosts_good = v.hosts_good;
            clients_good =
                any-remove_first (bad_client C R) (client_named name) c.client_tunnels
                  v.clients_good;
          })
        ]

    edits-IsGood :
        (actions : List (R.SecretKey × Action)) (c : LanTunConfig)
        → All (λ a. GivesKey a.1) actions
        → IsGood c
        → IsGood (edits C R actions c)
    unfolding edits
    edits-IsGood [] c k v = v
    edits-IsGood ((key, action) ∷ more) c (k, ks) v =
        edits-IsGood more (edit C R key action c) ks (edit-IsGood key action c k v)

    -- With codecs and keys that meet their laws: from the empty configuration, after any sequence
    -- of commands whose add-clients are given the hex text of 32 bytes that are a public key, the
    -- state of the configuration can be made, without an error or a panic.
    pub edits-create_state :
        (actions : List (R.SecretKey × Action))
        → All (λ a. GivesKey a.1) actions
        → (state : LanTun C R) × (create_state C R (edits C R actions empty_config) ≡ ok state)
    unfolding create_state any
    edits-create_state actions k =
        let c = edits C R actions empty_config in
        let good =
          edits-IsGood actions empty_config k (record { hosts_good = refl; clients_good = refl }) in
        let tidy = edits-IsTidy C R actions empty_config (record {
          hosts_sorted = tt;
          hosts_distinct = tt;
          clients_sorted = tt;
          clients_distinct = tt;
        }) in
        let (host, e) = create_hosts_total C R c.host_tunnels [] good.hosts_good in
        let (client, e') =
          create_clients_total C R c.client_tunnels [] good.clients_good tidy.clients_distinct
            (taken_nothing C R c.client_tunnels) in
        (record { host = host; client = client }, rw (e, e') refl)
