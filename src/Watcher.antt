-- ===== src/Watcher.antt =====
-- src/core/watcher.c and inc/watcher.h: what a descriptor is watched for, kept in step with the
-- event loop. The bits of `flags` are four Boolean fields: WATCHER_RX_WATCH, WATCHER_TX_WATCH,
-- WATCHER_ER_WATCH and WATCHER_STARTED.
--
-- The event loop is libev, a library that the program only calls: its state and its operations on
-- the three `ev_io` of a watcher are the interface `EventLoop`, with what its manual says of them.
pub mod Sync
pub mod Examples
use kongjaexpress.Prelude.{◌≡◌, Bool, true, false, if◌then◌else◌}

-- `rx_io`, `tx_io` and `er_io` of one watcher
pub data Target : Type 0 where
  rx tx er : Target

abbrev pub same : Target → Target → Bool
same rx rx = true
same tx tx = true
same er er = true
same _ _ = false

pub record EventLoop (Loop : Type 0) : Type 0 where
  pub ev_io_start : Target → Loop → Loop
  pub ev_io_stop : Target → Loop → Loop
  pub ev_is_active : Target → Loop → Bool
  pub active-start :
      (s t : Target) (l : Loop)
      → ev_is_active s (ev_io_start t l) ≡ (if same s t then true else ev_is_active s l)
  pub active-stop :
      (s t : Target) (l : Loop)
      → ev_is_active s (ev_io_stop t l) ≡ (if same s t then false else ev_is_active s l)

pub record Watcher (Loop : Type 0) : Type 0 where
  pub rx_watch : Bool
  pub tx_watch : Bool
  pub er_watch : Bool
  pub started : Bool
  pub loop : Loop

-- `watcher->flags & target`
abbrev pub watched : {Loop : Type 0} → Target → Watcher Loop → Bool
watched rx w = w.rx_watch
watched tx w = w.tx_watch
watched er w = w.er_watch

-- `watcher->flags |= target` and `watcher->flags &= ~target`
abbrev pub put_flag : {Loop : Type 0} → Target → Bool → Watcher Loop → Watcher Loop
put_flag rx b w = record w { rx_watch = b }
put_flag tx b w = record w { tx_watch = b }
put_flag er b w = record w { er_watch = b }

module _ {Loop : Type 0} ⦃ev : EventLoop Loop⦄ where
  pub watcher_start_target : Watcher Loop → Target → Watcher Loop
  watcher_start_target w t =
      if watched t w
      then w
      else (let w' = put_flag t true w in
          if w'.started then record w' { loop = ev.ev_io_start t w'.loop } else w')

  pub watcher_stop_target : Watcher Loop → Target → Watcher Loop
  watcher_stop_target w t =
      if watched t w
      then (let w' = put_flag t false w in
          if w'.started then record w' { loop = ev.ev_io_stop t w'.loop } else w')
      else w

  -- the three tests of `watcher_start` and of `watcher_stop`
  pub start_if : Bool → Target → Loop → Loop
  start_if b t l = if b then ev.ev_io_start t l else l

  pub stop_if : Bool → Target → Loop → Loop
  stop_if b t l = if b then ev.ev_io_stop t l else l

  unfoldable pub watcher_start : Watcher Loop → Watcher Loop
  watcher_start w = if w.started then w else (record w {
    started = true;
    loop = start_if w.er_watch er (start_if w.tx_watch tx (start_if w.rx_watch rx w.loop));
  })

  unfoldable pub watcher_stop : Watcher Loop → Watcher Loop
  watcher_stop w =
      if w.started
      then (record w {
        started = false;
        loop = stop_if w.er_watch er (stop_if w.tx_watch tx (stop_if w.rx_watch rx w.loop));
      })
      else w

  unfoldable pub watcher_watch_rx : Watcher Loop → Watcher Loop
  unfolding watcher_start_target
  watcher_watch_rx w = watcher_start_target w rx

  unfoldable pub watcher_no_watch_rx : Watcher Loop → Watcher Loop
  unfolding watcher_stop_target
  watcher_no_watch_rx w = watcher_stop_target w rx

  unfoldable pub watcher_watch_tx : Watcher Loop → Watcher Loop
  unfolding watcher_start_target
  watcher_watch_tx w = watcher_start_target w tx

  unfoldable pub watcher_no_watch_tx : Watcher Loop → Watcher Loop
  unfolding watcher_stop_target
  watcher_no_watch_tx w = watcher_stop_target w tx

  unfoldable pub watcher_watch_err : Watcher Loop → Watcher Loop
  unfolding watcher_start_target
  watcher_watch_err w = watcher_start_target w er

  unfoldable pub watcher_no_watch_err : Watcher Loop → Watcher Loop
  unfolding watcher_stop_target
  watcher_no_watch_err w = watcher_stop_target w er

-- `ev_io_init` leaves the three `ev_io` inactive in the loop that is given.
unfoldable pub watcher_init_with_fd : {Loop : Type 0} → Loop → Watcher Loop
watcher_init_with_fd l = record {
  rx_watch = false;
  tx_watch = false;
  er_watch = false;
  started = false;
  loop = l;
}

-- the calls that a client makes on a watcher
pub data Call : Type 0 where
  start stop : Call
  watch no_watch : Target → Call

unfoldable pub call : {Loop : Type 0} ⦃ev : EventLoop Loop⦄ → Call → Watcher Loop → Watcher Loop
call start w = watcher_start w
call stop w = watcher_stop w
call (watch rx) w = watcher_watch_rx w
call (watch tx) w = watcher_watch_tx w
call (watch er) w = watcher_watch_err w
call (no_watch rx) w = watcher_no_watch_rx w
call (no_watch tx) w = watcher_no_watch_tx w
call (no_watch er) w = watcher_no_watch_err w
