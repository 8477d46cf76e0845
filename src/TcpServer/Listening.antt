-- ===== src/TcpServer/Listening.antt =====
-- When a server is given connections, and what becomes of its descriptor.
use kongjaexpress.Prelude.{
  ℕ, ◌+◌, ◌≡◌, List, [], ◌∷◌, true, false, Option, none, some, arith, if◌then◌else◌, count, one,
  refl,
}
use kongjaexpress.Watcher.{
  EventLoop, Target, rx, tx, er, call, watcher_start, watcher_stop, watcher_watch_rx,
  watcher_init_with_fd,
}
use kongjaexpress.Watcher.Sync.{
  IsSynced, init-IsSynced, watch-IsSynced, start-IsSynced, stop-IsSynced, started_flags,
  stopped_flags,
}
use kongjaexpress.TcpConnector.{Descriptors, close_fd}
use kongjaexpress.TcpServer.{
  TcpServer, Setup, ipv4, opened_fd, no_socket, not_bound, not_listening, ready, tcp_server_init,
  tcp_server_start, tcp_server_stop, tcp_server_deinit, tcp_server_ipv4_init,
}

-- what a client does with a server that is set up
pub data ServerCall : Type 0 where
  starts stops deinits : ServerCall

-- a descriptor that is held counts once
abbrev pub held : ℕ → Option ℕ → ℕ
held d none = 0
held d (some sd) = one d sd

-- the descriptors that were opened, each closed or held
abbrev pub IsAccounted : {Loop : Type 0} → TcpServer Loop → Type 0
IsAccounted s = (d : ℕ) → count d s.fds.opened ≡ count d s.fds.closed + held d s.sd

closed-accounted :
    (sd : Option ℕ) (fds : Descriptors)
    → ((d : ℕ) → count d fds.opened ≡ count d fds.closed + held d sd)
    → (d : ℕ) → count d (close_fd sd fds).opened ≡ count d (close_fd sd fds).closed + 0
unfolding count
closed-accounted none fds h d = h d
closed-accounted (some sd) fds h d = omega (arith, h d)

module _ {Loop : Type 0} ⦃ev : EventLoop Loop⦄ where
  unfoldable pub serve : ServerCall → TcpServer Loop → TcpServer Loop
  serve starts s = tcp_server_start s
  serve stops s = tcp_server_stop s
  serve deinits s = tcp_server_deinit s

  unfoldable pub serve_all : List ServerCall → TcpServer Loop → TcpServer Loop
  serve_all [] s = s
  serve_all (c ∷ cs) s = serve_all cs (serve c s)

  -- The watcher is for connections alone, and runs exactly while the server listens.
  pub record IsReady (s : TcpServer Loop) : Type 0 where
    pub synced : IsSynced s.watcher
    pub running : s.watcher.started ≡ s.is_listening
    pub rx_only :
        (s.watcher.rx_watch ≡ true) × (s.watcher.tx_watch ≡ false) × (s.watcher.er_watch ≡ false)
    pub accounted : IsAccounted s

  start-IsReady : (s : TcpServer Loop) → IsReady s → IsReady (tcp_server_start s)
  unfolding tcp_server_start
  start-IsReady s h =
      let w = s.watcher in
      elim s.is_listening
        as (λ b.
          IsReady (if b then s else record s { is_listening = true; watcher = watcher_start w })) [
            | true ↦ h
            | false ↦ record {
              synced = start-IsSynced w h.synced;
              running = (started_flags w).0;
              rx_only = ground (arith, started_flags w);
              accounted = h.accounted;
            }
          ]

  stop-IsReady : (s : TcpServer Loop) → IsReady s → IsReady (tcp_server_stop s)
  unfolding tcp_server_stop
  stop-IsReady s h =
      let w = s.watcher in
      elim s.is_listening
        as (λ b.
          IsReady (if b then record s { is_listening = false; watcher = watcher_stop w } else s)) [
            | true ↦ record {
              synced = stop-IsSynced w h.synced;
              running = (stopped_flags w).0;
              rx_only = ground (arith, stopped_flags w);
              accounted = h.accounted;
            }
            | false ↦ h
          ]

  serve-IsReady : (c : ServerCall) (s : TcpServer Loop) → IsReady s → IsReady (serve c s)
  unfolding serve tcp_server_deinit
  serve-IsReady starts s h = start-IsReady s h
  serve-IsReady stops s h = stop-IsReady s h
  serve-IsReady deinits s h =
      let stopped = tcp_server_stop s in
      let k = stop-IsReady s h in
      record {
        synced = k.synced;
        running = k.running;
        rx_only = k.rx_only;
        accounted = closed-accounted stopped.sd stopped.fds k.accounted;
      }

  pub serve_all-IsReady :
      (cs : List ServerCall) (s : TcpServer Loop) → IsReady s → IsReady (serve_all cs s)
  unfolding serve_all
  serve_all-IsReady [] s h = h
  serve_all-IsReady (c ∷ cs) s h = serve_all-IsReady cs (serve c s) (serve-IsReady c s h)

  init-IsReady :
      (s : TcpServer Loop) (sd : ℕ)
      → ((t : Target) → ev.ev_is_active t s.watcher.loop ≡ false)
      → ((d : ℕ) → count d s.fds.opened ≡ count d s.fds.closed)
      → IsReady (tcp_server_init (opened_fd sd s) sd)
  unfolding tcp_server_init count call watcher_watch_rx watcher_init_with_fd
  init-IsReady s sd inactive closed = record {
    synced =
        watch-IsSynced rx (watcher_init_with_fd s.watcher.loop)
          (init-IsSynced s.watcher.loop inactive);
    running = refl;
    rx_only = (refl, refl, refl);
    accounted = λ d. omega (arith, closed d);
  }

  -- A server whose `ev_io` are inactive, and which has closed every descriptor that it opened, is set
  -- up over IPv4. If this fails, every descriptor is closed again. If it succeeds, then after any
  -- calls that start, stop and close the server, the event loop watches for connections exactly while
  -- the server listens, for nothing else, and each descriptor is closed or still held.
  pub ipv4_init-IsReady :
      (s : TcpServer Loop) (setup : Setup) (cs : List ServerCall)
      → ((t : Target) → ev.ev_is_active t s.watcher.loop ≡ false)
      → ((d : ℕ) → count d s.fds.opened ≡ count d s.fds.closed)
      → let (ok, s₁) = tcp_server_ipv4_init s setup in
        let s₂ = serve_all cs s₁ in
        if ok
        then ((ev.ev_is_active rx s₂.watcher.loop ≡ s₂.is_listening)
            × (ev.ev_is_active tx s₂.watcher.loop ≡ false)
            × (ev.ev_is_active er s₂.watcher.loop ≡ false)
            × IsAccounted s₂)
        else ((d : ℕ) → count d s₁.fds.opened ≡ count d s₁.fds.closed)
  unfolding tcp_server_ipv4_init count
  ipv4_init-IsReady s no_socket cs inactive closed = closed
  ipv4_init-IsReady s (not_bound sd) cs inactive closed = λ d. omega (arith, closed d)
  ipv4_init-IsReady s (not_listening sd) cs inactive closed = λ d. omega (arith, closed d)
  ipv4_init-IsReady s (ready sd) cs inactive closed =
      let h =
        serve_all-IsReady cs
          (tcp_server_init (opened_fd sd (record s { server_type = ipv4; sd = none })) sd)
          (init-IsReady (record s { server_type = ipv4; sd = none }) sd inactive closed) in
      ground (arith, h.synced, h.running, h.rx_only, h.accounted)
