-- ===== src/Cli/Effects.antt =====
-- What a command does, whatever the disk is like: it stays with its configuration, or saves a new
-- one (main.rs).
use lantun.Cli.Entries.{remove_first_absent, remove_at-position}
use lantun.Protocol.{TunnelProtocol}
use lantun.Addr.{SocketAddr}
use lantun.Cli.Edits.{edit_client, edit}
use lantun.Base.{
  refl, [], inl, ◌∷◌, inr, panic, Bool-cases, codes, List, err, ◌≡◌, ok, Bytes, Text, Outcome,
}
use lantun.Cli.Commands.{
  add_client_hint, public_secret_is, removed_client, client_created, client_named, host_created,
  client_at, host_at, list_tunnels, removed_host, any, saving, Line, host_named, run_list,
  add_decoded, host_entry, run_add_client, create_host_tunnel, remove_tunnel, Ran, run_action,
  add_client_tunnel, run_create_host, run_remove, Action,
}
use lantun.Runtime.{Runtime}
use lantun.Cli.Config.{message, Disk, LanTunConfig, Report, Codecs}

module _ (C : Codecs) (R : Runtime) where
  -- What a command answers on a disk that works: only a secret that is no hex text is refused.
  abbrev pub answer_client : Outcome Text Bytes → Outcome Report (Unit {0})
  answer_client (ok secret) = ok tt
  answer_client (err e) = err (message (codes "Invalid secret format. It should be a hex string."))
  answer_client panic = panic

  abbrev pub answer : Action → Outcome Report (Unit {0})
  answer (add_client_tunnel secret local protocol name) = answer_client (C.hex_decode secret)
  answer _ = ok tt

  pub data Effect (r : Outcome Report (Unit {0})) (c c' : LanTunConfig) (d : Disk) (x : Ran)
      : Type 0 where
    stays : c' ≡ c → x.disk ≡ d → x.result ≡ r → Effect r c c' d x
    saves :
        (before after : List Line)
        → r ≡ ok tt
        → x ≡ saving C R c' before after d
        → Effect r c c' d x

  add_decoded-Effect :
      (b : Outcome Text Bytes) (local : SocketAddr) (protocol : TunnelProtocol) (name : Text)
      (c : LanTunConfig) (d : Disk)
      → Effect
          (answer_client b)
          c
          (edit_client C R b local protocol name c)
          d
          (add_decoded C R b local protocol name c d)
  add_decoded-Effect (err e) local protocol name c d = stays refl refl refl
  add_decoded-Effect panic local protocol name c d = stays refl refl refl
  add_decoded-Effect (ok secret) local protocol name c d =
      elim (Bool-cases (any (client_at local protocol) c.client_tunnels)) [
        | inl e ↦ rw e (stays refl refl refl)
        | inr e ↦ rw e (saves [] (client_created name local protocol ∷ []) refl refl)
      ]

  create_host-Effect :
      (key : R.SecretKey) (local : SocketAddr) (protocol : TunnelProtocol) (name : Text)
      (c : LanTunConfig) (d : Disk)
      → Effect
          (ok tt)
          c
          (edit C R key (create_host_tunnel local protocol name) c)
          d
          (run_create_host C R key local protocol name c d)
  unfolding edit run_create_host
  create_host-Effect key local protocol name c d =
      let t = host_entry C R key local protocol name in
      elim (Bool-cases (any (host_at local protocol) c.host_tunnels)) [
        | inl e ↦ rw e (stays refl refl refl)
        | inr e ↦ rw e (
            saves []
              (host_created name local protocol
                ∷ public_secret_is t.public_secret
                ∷ add_client_hint t.public_secret local protocol
                ∷ [])
              refl refl)
      ]

  remove-Effect :
      (key : R.SecretKey) (name : Text) (c : LanTunConfig) (d : Disk)
      → Effect (ok tt) c (edit C R key (remove_tunnel name) c) d (run_remove C R name c d)
  unfolding edit run_remove
  remove-Effect key name c d = elim (remove_at-position (host_named name) c.host_tunnels) [
    | inr (i, at, found, removed) ↦
        rw (at, found, removed) (saves (removed_host name ∷ []) [] refl refl)
    | inl (no_position, nobody) ↦
        rw (no_position, nobody)
          (elim (remove_at-position (client_named name) c.client_tunnels) [
            | inr (i, at, found, removed) ↦
                rw (at, removed) (saves (removed_client name ∷ []) [] refl refl)
            | inl (no_client, no_name) ↦
                rw (no_client, remove_first_absent (client_named name) c.client_tunnels no_name)
                  (stays refl refl refl)
          ])
  ]

  pub run_action-Effect :
      (key : R.SecretKey) (action : Action) (c : LanTunConfig) (d : Disk)
      → Effect (answer action) c (edit C R key action c) d (run_action C R key action c d)
  run_action-Effect key (create_host_tunnel local protocol name) c d =
      create_host-Effect key local protocol name c d
  run_action-Effect key (add_client_tunnel secret local protocol name) c d =
      unfold edit run_add_client in add_decoded-Effect (C.hex_decode secret) local protocol name c d
  run_action-Effect key list_tunnels c d = unfold edit run_list in stays refl refl refl
  run_action-Effect key (remove_tunnel name) c d = remove-Effect key name c d
