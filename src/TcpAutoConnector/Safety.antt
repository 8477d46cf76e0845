-- ===== src/TcpAutoConnector/Safety.antt =====
-- What holds in every state that a connector can reach: the state agrees with the timers and the
-- watcher, and no descriptor is lost.
use mathlib.Core.Option.{get_or}
use mathlib.Core.Path.{subst}
use kongjaexpress.Prelude.{
  count, ℕ, zero, suc, ap, ◌≡◌, refl, sym, ◌∙◌, ◌∷◌, Bool, true, false, Option, none, some, arith,
  if◌then◌else◌,
}
use kongjaexpress.Watcher.{
  EventLoop, Watcher, watcher_init_with_fd, watcher_watch_tx, watcher_start, watcher_stop,
}
use kongjaexpress.TcpConnector.{
  TcpConnector, Status, success, failure, in_progress, timeout, Attempt, no_socket, connected,
  pending, refused, tcp_connector_try_ipv4, tcp_connector_deinit, tcp_connector_watcher_callback,
  tcp_connector_timeout, tcp_connect_get_sd,
}
use kongjaexpress.TcpAutoConnector.{
  AutoConnector, AutoState, not_started, connecting, reconnect_wait, dial,
  tcp_auto_connector_handle_tcp_connect_event, tcp_auto_connector_connect, tcp_auto_connector_start,
  tcp_auto_connector_stop, tcp_auto_connector_reconn_wait_timeout, stop_in, connect_event,
  connect_timeout, Step, started, stopped, reported, expired, waited, Reach, here, next,
}
use kongjaexpress.TcpAutoConnector.Valid.{
  is_some, given, is_connecting, is_waiting, is_in_progress, IsBusy, IsBalanced, IsValid,
  IsReported,
}

is_waiting-connecting : (state : AutoState) → is_connecting state ≡ true → is_waiting state ≡ false
is_waiting-connecting state e = ground arith

module _ {Loop : Type 0} ⦃ev : EventLoop Loop⦄ where
  dial-IsReported :
      (attempt : Attempt) (conn : AutoConnector Loop)
      → IsBusy false conn.tcp
      → conn.reconn_wait_tmr ≡ false
      → is_some conn.tcp.sd ≡ false
      → IsBalanced conn
      → IsReported (dial conn attempt).0 (dial conn attempt).1
  unfolding tcp_connector_try_ipv4 watcher_start watcher_watch_tx watcher_init_with_fd IsBalanced
      count
  dial-IsReported no_socket conn idle waits empty balanced = record {
    busy = record { prog = idle.prog; tmr = idle.tmr; watched = idle.watched };
    waits = waits;
    holds = λ e. ground arith;
    balanced = λ d. ground (arith, balanced d);
  }
  dial-IsReported (connected sd) conn idle waits empty balanced = record {
    busy = record { prog = refl; tmr = refl; watched = refl };
    waits = waits;
    holds = λ e. refl;
    balanced = λ d. ground (arith, balanced d);
  }
  dial-IsReported (pending sd) conn idle waits empty balanced = record {
    busy = record { prog = refl; tmr = refl; watched = refl };
    waits = waits;
    holds = λ e. refl;
    balanced = λ d. ground (arith, balanced d);
  }
  dial-IsReported (refused sd) conn idle waits empty balanced = record {
    busy = record { prog = refl; tmr = refl; watched = refl };
    waits = waits;
    holds = λ e. refl;
    balanced = λ d. ground (arith, balanced d);
  }

  -- After `tcp_connector_deinit` nothing is under way and no descriptor is held.
  deinit-IsBalanced :
      (conn : AutoConnector Loop)
      → IsBalanced conn
      → IsBalanced (record conn { tcp = tcp_connector_deinit conn.tcp })
  unfolding tcp_connector_deinit IsBalanced count
  deinit-IsBalanced conn balanced d = ground (arith, balanced d)

  deinit-IsBusy :
      (b : Bool) (tcp : TcpConnector Loop) → IsBusy b tcp → IsBusy false (tcp_connector_deinit tcp)
  unfolding tcp_connector_deinit watcher_stop
  deinit-IsBusy b tcp busy = record {
    prog = ground arith;
    tmr = ground arith;
    watched = ground arith;
  }

  deinit-sd : (tcp : TcpConnector Loop) → (tcp_connector_deinit tcp).sd ≡ none
  unfolding tcp_connector_deinit
  deinit-sd tcp = ground arith

  adopt : (a b : AutoConnector Loop) → some a ≡ some b → IsValid a → IsValid b
  adopt a b e = subst IsValid (ap (λ (o : Option (AutoConnector Loop)). get_or o a) e)

  handle_event-IsValid :
      (fuel : ℕ) (attempt : Attempt) (status : Status) (conn conn' : AutoConnector Loop)
      → IsReported status conn
      → tcp_auto_connector_handle_tcp_connect_event fuel attempt status conn ≡ some conn'
      → IsValid conn'
  unfolding tcp_auto_connector_handle_tcp_connect_event tcp_connect_get_sd IsBalanced given
  handle_event-IsValid fuel attempt success conn conn' r e =
      let after : AutoConnector Loop = record conn {
        state = not_started;
        tcp = record (conn.tcp) { sd = none };
        calls = conn.tcp.sd ∷ conn.calls;
      } in
      adopt after conn' e (record {
        busy = record { prog = r.busy.prog; tmr = r.busy.tmr; watched = r.busy.watched };
        waits = r.waits;
        holds = refl;
        balanced = λ d. ground (arith, r.balanced d);
      })
  handle_event-IsValid fuel attempt failure conn conn' r e =
      let after : AutoConnector Loop = record conn {
        tcp = tcp_connector_deinit conn.tcp;
        state = reconnect_wait;
        reconn_wait_tmr = true;
        calls = none ∷ conn.calls;
      } in
      adopt after conn' e (record {
        busy = deinit-IsBusy false conn.tcp r.busy;
        waits = refl;
        holds = ap is_some (deinit-sd conn.tcp);
        balanced = λ d. ground (arith, deinit-IsBalanced conn r.balanced d);
      })
  handle_event-IsValid fuel attempt in_progress conn conn' r e =
      let after : AutoConnector Loop = record conn { state = connecting } in
      adopt after conn' e (record {
        busy = record { prog = r.busy.prog; tmr = r.busy.tmr; watched = r.busy.watched };
        waits = r.waits;
        holds = r.holds refl;
        balanced = r.balanced;
      })
  handle_event-IsValid zero attempt timeout conn conn' r e = absurd (ground arith)
  handle_event-IsValid (suc fuel) attempt timeout conn conn' r e =
      let after = record conn { tcp = tcp_connector_deinit conn.tcp; calls = none ∷ conn.calls } in
      handle_event-IsValid fuel attempt _ _ conn'
        (dial-IsReported attempt after (deinit-IsBusy false conn.tcp r.busy) r.waits
          (ap is_some (deinit-sd conn.tcp))
          (λ d. ground (arith, deinit-IsBalanced conn r.balanced d)))
        e

  -- the connector while its callback runs: nothing is under way, the descriptor is still held
  calling-IsReported :
      (status : Status) (conn : AutoConnector Loop) (watcher : Watcher Loop)
      → is_in_progress status ≡ false
      → watcher.started ≡ false
      → conn.reconn_wait_tmr ≡ false
      → IsBalanced conn
      → IsReported status (record conn {
        tcp = record (conn.tcp) { is_in_prog = false; watcher = watcher; tmr = false };
      })
  unfolding IsBalanced
  calling-IsReported status conn watcher over off quiet balanced = record {
    busy = record { prog = sym over; tmr = sym over; watched = off ∙ sym over };
    waits = quiet;
    holds = λ e. ground arith;
    balanced = balanced;
  }

  stop-started : (w : Watcher Loop) → (watcher_stop w).started ≡ false
  unfolding watcher_stop
  stop-started w = ground arith

  stop_in-IsValid :
      (state : AutoState) (c : AutoConnector Loop)
      → IsBusy (is_connecting state) c.tcp
      → c.reconn_wait_tmr ≡ is_waiting state
      → IsBalanced c
      → IsValid (record (stop_in state c) { state = not_started })
  unfolding stop_in IsBalanced
  stop_in-IsValid not_started c busy waits balanced = record {
    busy = deinit-IsBusy _ c.tcp busy;
    waits = waits;
    holds = ap is_some (deinit-sd c.tcp);
    balanced = deinit-IsBalanced c balanced;
  }
  stop_in-IsValid connecting c busy waits balanced = record {
    busy = deinit-IsBusy _ c.tcp busy;
    waits = waits;
    holds = ap is_some (deinit-sd c.tcp);
    balanced = deinit-IsBalanced c balanced;
  }
  stop_in-IsValid reconnect_wait c busy waits balanced = record {
    busy = deinit-IsBusy _ c.tcp busy;
    waits = refl;
    holds = ap is_some (deinit-sd c.tcp);
    balanced = deinit-IsBalanced c balanced;
  }

  Step-IsValid : {c c' : AutoConnector Loop} → IsValid c → Step c c' → IsValid c'
  unfolding tcp_auto_connector_start tcp_auto_connector_connect tcp_auto_connector_stop
      connect_event connect_timeout IsBalanced tcp_connector_watcher_callback tcp_connector_timeout
      tcp_auto_connector_reconn_wait_timeout
  Step-IsValid {c} {c'} v (started fuel attempt idle e) =
      handle_event-IsValid fuel attempt _ _ c'
        (dial-IsReported attempt c
          (subst (λ (s : AutoState). IsBusy (is_connecting s) c.tcp) idle v.busy)
          (v.waits ∙ ap is_waiting idle) (v.holds ∙ ap is_connecting idle) v.balanced)
        e
  Step-IsValid {c} {c'} v (stopped e) =
      subst IsValid e (stop_in-IsValid c.state c v.busy v.waits v.balanced)
  Step-IsValid {c} {c'} v (reported fuel attempt ok on e) =
      handle_event-IsValid fuel attempt _ _ c'
        (calling-IsReported (if ok then success else failure) c (watcher_stop c.tcp.watcher)
          (ground arith) (stop-started c.tcp.watcher)
          (v.waits ∙ is_waiting-connecting c.state (sym v.busy.watched ∙ on)) v.balanced)
        e
  Step-IsValid {c} {c'} v (expired fuel attempt on e) =
      handle_event-IsValid fuel attempt _ _ c'
        (calling-IsReported timeout c (watcher_stop c.tcp.watcher) refl (stop-started c.tcp.watcher)
          (v.waits ∙ is_waiting-connecting c.state (sym v.busy.tmr ∙ on)) v.balanced)
        e
  Step-IsValid {c} {c'} v (waited fuel attempt on e) =
      let idle : is_connecting c.state ≡ false = ground (arith, v.waits, on) in
      let c₀ = record c { reconn_wait_tmr = false } in
      handle_event-IsValid fuel attempt _ _ c'
        (dial-IsReported attempt c₀ (subst (λ (b : Bool). IsBusy b c.tcp) idle v.busy) refl
          (v.holds ∙ idle) v.balanced)
        e

  -- Whatever the system answers and in whatever order the events come, a connector that starts valid
  -- stays valid: an attempt is under way, and its timer and its watcher run, exactly in the state
  -- `connecting`; the timer of the pause runs exactly in `reconnect_wait`; a descriptor is held
  -- exactly in `connecting`; and every descriptor that was opened was closed, was given to the
  -- client, or is held.
  pub Reach-IsValid : {c c' : AutoConnector Loop} → IsValid c → Reach c c' → IsValid c'
  Reach-IsValid v here = v
  Reach-IsValid v (next r s) = Step-IsValid (Reach-IsValid v r) s
