-- ===== src/Client/Lifecycle.antt =====
-- `ClientTunnel::connect` and `disconnect` beside the task that they start and stop
-- (lantun-core/src/client.rs).
use lantun.Protocol.{TunnelProtocol}
use lantun.Base.{
  suc, ℕ, ◌+◌, refl, arith, err, panic, none, ok, false, true, ◌≢◌, Outcome, Text, ◌≡◌,
}
use lantun.Client.Listener.{listening, binding, forwarding, Phase, ended, receivers, Listener}
use lantun.Client.{
  not_connected, already_connected, is_running, made, ClientError, disconnect,
  num_active_connections, ClientTunnel, connect,
}
use lantun.Addr.{SocketAddr}
use lantun.Runtime.{IsWatch, Send, Runtime}

module _ (R : Runtime) where
  open R use {Endpoint, Connection, StopSender}

  -- A tunnel with the task of its last `connect`, and the number of forwarder loops that this task
  -- has left behind and that still run: each keeps its clone of the stop channel.
  pub record Client : Type 0 where
    pub tunnel : ClientTunnel R
    pub task : Listener
    pub detached : ℕ

  -- The flag says whether the tunnel has its running values.
  pub record IsConsistent (t : ClientTunnel R) : Type 0 where
    pub connected_has : t.is_connected ≡ true → t.running_props ≢ none
    pub parted_lacks : t.is_connected ≡ false → t.running_props ≡ none

  pub made-IsConsistent :
      (local_addr : SocketAddr) (name : Text) (key : R.PublicKey) (protocol : TunnelProtocol)
      → IsConsistent (made R local_addr name key protocol)
  made-IsConsistent local_addr name key protocol = ground arith

  module _ (send : Send) where
    -- `disconnect` sends to the receivers that the task and the loops left behind keep.
    unfoldable pub disconnect_from : Client → ClientTunnel R × Outcome ClientError (Unit {0})
    unfolding disconnect
    disconnect_from c = disconnect R (send (receivers c.task.phase + c.detached)) c.tunnel

    heard :
        IsWatch send
        → (p : Phase) (detached : ℕ) → ((r : Outcome ClientError (Unit {0})) → p ≢ ended r)
        → send (receivers p + detached) ≡ true
    heard w binding detached live = ground (arith, w.heard detached)
    heard w listening detached live = ground (arith, w.heard detached)
    heard w (forwarding l) detached live = ground (arith, w.heard (suc (suc detached)))
    heard w (ended r) detached live = absurd (live r refl)

    -- If the task of a connected and consistent client tunnel has not ended, and the watch channel
    -- behaves as documented, disconnect succeeds, clears the flag and the running values, and
    -- leaves the other fields.
    pub disconnect_of_live :
        (c : Client)
        → IsWatch send
        → IsConsistent c.tunnel
        → c.tunnel.is_connected ≡ true
        → ((r : Outcome ClientError (Unit {0})) → c.task.phase ≢ ended r)
        → disconnect_from c
          ≡ (record (c.tunnel) { running_props = none; is_connected = false }, ok tt)
    unfolding disconnect_from
    disconnect_of_live c w v on live = ground (arith, heard w c.task.phase c.detached live)

    -- If the task of a connected and consistent client tunnel has ended, no forwarder loop that it
    -- left behind still runs, and the watch channel behaves as documented, then disconnect panics;
    -- the tunnel that it leaves says that it is running, counts no connections and refuses every
    -- connect without a change; and a second disconnect succeeds and leaves a consistent tunnel
    -- that is not running.
    pub disconnect_of_ended :
        (c : Client) (r : Outcome ClientError (Unit {0}))
        → IsWatch send
        → IsConsistent c.tunnel
        → c.tunnel.is_connected ≡ true
        → c.task.phase ≡ ended r
        → c.detached ≡ 0
        → let (t, result) = disconnect_from c in
          let (t', result') = disconnect_from (record c { tunnel = t }) in
          (result ≡ panic)
          × (is_running R t ≡ true)
          × (num_active_connections R t ≡ 0)
          × ((endpoint : Outcome Text Endpoint) (conn : Outcome Text Connection)
                (stop_tx : StopSender)
              → connect R endpoint conn stop_tx t ≡ (t, err already_connected))
          × (result' ≡ ok tt)
          × (is_running R t' ≡ false)
          × IsConsistent t'
    unfolding disconnect_from num_active_connections connect
    disconnect_of_ended c r w v on over alone =
        let silent : send (receivers c.task.phase + c.detached) ≡ false =
          rw (over, alone) w.closed in
        (
          ground (arith, silent),
          ground (arith, silent),
          ground (arith, silent),
          λ endpoint conn stop_tx. ground (arith, silent),
          ground (arith, silent),
          ground (arith, silent),
          record {
            connected_has = λ e. ground (arith, silent);
            parted_lacks = λ e. ground (arith, silent);
          },
        )

  -- For a consistent client tunnel that is not connected: connect with a bound endpoint and a
  -- dialled connection succeeds and counts no connections, a second connect is refused and changes
  -- nothing, a heard disconnect brings back the tunnel as it was, and disconnect without connect
  -- is refused and changes nothing.
  pub connect-disconnect :
      (t : ClientTunnel R) (endpoint : Endpoint) (conn : Connection) (stop_tx : StopSender)
      (endpoint' : Outcome Text Endpoint) (conn' : Outcome Text Connection)
      → IsConsistent t
      → t.is_connected ≡ false
      → let opened = (connect R (ok endpoint) (ok conn) stop_tx t).0 in
        ((connect R (ok endpoint) (ok conn) stop_tx t).1 ≡ ok tt)
        × (num_active_connections R opened ≡ 0)
        × (connect R endpoint' conn' stop_tx opened ≡ (opened, err already_connected))
        × (disconnect R true opened ≡ (t, ok tt))
        × (disconnect R true t ≡ (t, err not_connected))
  unfolding connect disconnect num_active_connections
  connect-disconnect t endpoint conn stop_tx endpoint' conn' v parted =
      (ground arith, ground arith, ground arith, ground arith, ground arith)

  -- A connect that does not succeed leaves the client tunnel as it was.
  pub connect_failed :
      (t : ClientTunnel R) (endpoint : Outcome Text Endpoint) (conn : Outcome Text Connection)
      (stop_tx : StopSender)
      → (connect R endpoint conn stop_tx t).1 ≢ ok tt
      → (connect R endpoint conn stop_tx t).0 ≡ t
  unfolding connect
  connect_failed t (ok e) (ok c) stop_tx h = ground arith
  connect_failed t (ok e) (err m) stop_tx h = ground arith
  connect_failed t (ok e) panic stop_tx h = ground arith
  connect_failed t (err m) conn stop_tx h = ground arith
  connect_failed t panic conn stop_tx h = ground arith
