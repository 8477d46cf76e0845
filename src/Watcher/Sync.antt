-- ===== src/Watcher/Sync.antt =====
-- The event loop watches exactly what the flags say.
use kongjaexpress.Prelude.{◌≡◌, Bool, true, false, ◌&&◌, if◌then◌else◌, List, [], ◌∷◌, arith}
use kongjaexpress.Watcher.{
  Target, rx, tx, er, EventLoop, Watcher, Call, start, stop, watch, no_watch, call, same, start_if,
  stop_if, watcher_start, watcher_stop, watcher_watch_rx, watcher_watch_tx, watcher_watch_err,
  watcher_no_watch_rx, watcher_no_watch_tx, watcher_no_watch_err, watcher_init_with_fd,
}

module _ {Loop : Type 0} ⦃ev : EventLoop Loop⦄ where
  -- every `ev_io` is active exactly if the watcher is started and its flag is set
  abbrev pub IsSynced : Watcher Loop → Type 0
  IsSynced w =
      (ev.ev_is_active rx w.loop ≡ w.started && w.rx_watch)
      × (ev.ev_is_active tx w.loop ≡ w.started && w.tx_watch)
      × (ev.ev_is_active er w.loop ≡ w.started && w.er_watch)

  pub init-IsSynced :
      (l : Loop) → ((t : Target) → ev.ev_is_active t l ≡ false) → IsSynced (watcher_init_with_fd l)
  unfolding watcher_init_with_fd
  init-IsSynced l h = (h rx, h tx, h er)

  pub watch-IsSynced : (t : Target) (w : Watcher Loop) → IsSynced w → IsSynced (call (watch t) w)
  unfolding call watcher_watch_rx watcher_watch_tx watcher_watch_err
  watch-IsSynced rx w h = ground (
    arith,
    ev.active-start rx rx w.loop,
    ev.active-start tx rx w.loop,
    ev.active-start er rx w.loop,
  )
  watch-IsSynced tx w h = ground (
    arith,
    ev.active-start rx tx w.loop,
    ev.active-start tx tx w.loop,
    ev.active-start er tx w.loop,
  )
  watch-IsSynced er w h = ground (
    arith,
    ev.active-start rx er w.loop,
    ev.active-start tx er w.loop,
    ev.active-start er er w.loop,
  )

  pub no_watch-IsSynced :
      (t : Target) (w : Watcher Loop) → IsSynced w → IsSynced (call (no_watch t) w)
  unfolding call watcher_no_watch_rx watcher_no_watch_tx watcher_no_watch_err
  no_watch-IsSynced rx w h =
      ground (
        arith,
        ev.active-stop rx rx w.loop,
        ev.active-stop tx rx w.loop,
        ev.active-stop er rx w.loop,
      )
  no_watch-IsSynced tx w h =
      ground (
        arith,
        ev.active-stop rx tx w.loop,
        ev.active-stop tx tx w.loop,
        ev.active-stop er tx w.loop,
      )
  no_watch-IsSynced er w h =
      ground (
        arith,
        ev.active-stop rx er w.loop,
        ev.active-stop tx er w.loop,
        ev.active-stop er er w.loop,
      )

  active-start_if :
      (s : Target) (b : Bool) (t : Target) (l : Loop)
      → ev.ev_is_active s (start_if b t l) ≡ (if same s t && b then true else ev.ev_is_active s l)
  unfolding start_if
  active-start_if s b t l = ground (arith, ev.active-start s t l)

  active-stop_if :
      (s : Target) (b : Bool) (t : Target) (l : Loop)
      → ev.ev_is_active s (stop_if b t l) ≡ (if same s t && b then false else ev.ev_is_active s l)
  unfolding stop_if
  active-stop_if s b t l = ground (arith, ev.active-stop s t l)

  pub start-IsSynced : (w : Watcher Loop) → IsSynced w → IsSynced (watcher_start w)
  unfolding watcher_start
  start-IsSynced w h = grind (arith, active-start_if)

  pub stop-IsSynced : (w : Watcher Loop) → IsSynced w → IsSynced (watcher_stop w)
  unfolding watcher_stop
  stop-IsSynced w h = grind (arith, active-stop_if)

  pub started_flags :
      (w : Watcher Loop)
      → ((watcher_start w).started ≡ true)
        × ((watcher_start w).rx_watch ≡ w.rx_watch)
        × ((watcher_start w).tx_watch ≡ w.tx_watch)
        × ((watcher_start w).er_watch ≡ w.er_watch)
  unfolding watcher_start
  started_flags w = ground arith

  pub stopped_flags :
      (w : Watcher Loop)
      → ((watcher_stop w).started ≡ false)
        × ((watcher_stop w).rx_watch ≡ w.rx_watch)
        × ((watcher_stop w).tx_watch ≡ w.tx_watch)
        × ((watcher_stop w).er_watch ≡ w.er_watch)
  unfolding watcher_stop
  stopped_flags w = ground arith

  pub call-IsSynced : (c : Call) (w : Watcher Loop) → IsSynced w → IsSynced (call c w)
  call-IsSynced start w h = unfold call in start-IsSynced w h
  call-IsSynced stop w h = unfold call in stop-IsSynced w h
  call-IsSynced (watch t) w h = watch-IsSynced t w h
  call-IsSynced (no_watch t) w h = no_watch-IsSynced t w h

  -- a client's calls in order
  pub calls : List Call → Watcher Loop → Watcher Loop
  calls [] w = w
  calls (c ∷ cs) w = calls cs (call c w)

  calls_from : (cs : List Call) (w : Watcher Loop) → IsSynced w → IsSynced (calls cs w)
  unfolding calls
  calls_from [] w h = h
  calls_from (c ∷ cs) w h = calls_from cs (call c w) (call-IsSynced c w h)

  -- After any sequence of calls on a fresh watcher whose `ev_io` are inactive, each `ev_io` is
  -- active exactly if the watcher is started and watches for it.
  pub calls-IsSynced :
      (cs : List Call) (l : Loop)
      → ((t : Target) → ev.ev_is_active t l ≡ false)
      → IsSynced (calls cs (watcher_init_with_fd l))
  calls-IsSynced cs l h = calls_from cs (watcher_init_with_fd l) (init-IsSynced l h)
