-- ===== src/Modbus/TcpSlave/Connections/Quiet.antt =====
-- The event loop does not watch for a connection that was freed.
use kongjaexpress.Prelude.{
  ℕ, ◌≡◌, sym, arith, List, [], ◌∷◌, ◌++◌, true, false, Option, none, some, ◌==◌, if◌then◌else◌,
  inl, inr, length, take,
}
use kongjaexpress.Prelude.Bytes.{All, All-append}
use mathlib.Core.Path.{subst}
use mathlib.Core.Option.{some-injective}
use kongjaexpress.Watcher.{EventLoop, Watcher}
use kongjaexpress.Watcher.Sync.{IsSynced}
use kongjaexpress.Stream.{StreamEvent, WriteResult}
use kongjaexpress.Stream.Sources.{
  IsInactive, write-IsSynced, callback-IsSynced, started-IsSynced, deinit-IsInactive,
}
use kongjaexpress.TcpServer.{tcp_server_rx_event, tcp_server_stop}
use kongjaexpress.Modbus.Common.{SlaveCallbacks}
use kongjaexpress.Modbus.Funcs.Dispatch.{modbus_rtu_handler_request_rx}
use kongjaexpress.Modbus.Mbap.{MbapReader}
use kongjaexpress.Modbus.Mbap.World.{feed-keeps}
use kongjaexpress.Modbus.TcpSlave.{
  TcpSlave, tcp_request, finish_tcp_frame, modbus_tcp_slave_handle_rx_frame,
  modbus_tcp_slave_got_frame,
}
use kongjaexpress.Modbus.TcpSlave.Connections.Steps.{step_inv, run_inv}
use kongjaexpress.Modbus.TcpSlave.Connections.{
  Connection, ModbusTcpSlave, Memory, Event, accepts, event_on, starts, stops, new_connection,
  find_connection, update_connection, list_del, view, modbus_tcp_slave_alloc_conn,
  modbus_tcp_slave_dealloc_conn, modbus_tcp_slave_handle_stream_event, called_back, dealloc_all,
  modbus_tcp_slave_start, modbus_tcp_slave_stop, step, run,
}

module _ {Loop : Type 0} (P : Connection Loop → Type 0) where
  All-update_connection :
      (c : Connection Loop) (xs : List (Connection Loop))
      → P c
      → All P xs
      → All P (update_connection c xs)
  unfolding update_connection
  All-update_connection c [] p h = tt
  All-update_connection c (x ∷ xs) p h =
      elim (x.sd == c.sd) as (λ b. All P (if b then c ∷ xs else x ∷ update_connection c xs)) [
        | true ↦ (p, h.1)
        | false ↦ (h.0, All-update_connection c xs p h.1)
      ]

  All-list_del : (sd : ℕ) (xs : List (Connection Loop)) → All P xs → All P (list_del sd xs)
  unfolding list_del
  All-list_del sd [] h = tt
  All-list_del sd (x ∷ xs) h =
      elim (x.sd == sd) as (λ b. All P (if b then xs else x ∷ list_del sd xs)) [
        | true ↦ h.1
        | false ↦ (h.0, All-list_del sd xs h.1)
      ]

  All-find_connection :
      (sd : ℕ) (xs : List (Connection Loop)) (c : Connection Loop)
      → All P xs
      → find_connection sd xs ≡ some c
      → P c
  unfolding find_connection
  All-find_connection sd [] c h at = absurd (ground arith)
  All-find_connection sd (x ∷ xs) c h at =
      elim (x.sd == sd) as (λ b. (if b then some x else find_connection sd xs) ≡ some c → P c) [
        | true ↦ λ same. subst P (some-injective x c same) h.0
        | false ↦ λ rest. All-find_connection sd xs c h.1 rest
      ]
        at

module _ {Loop : Type 0} ⦃ev : EventLoop Loop⦄ where
  abbrev pub IsWatched : Connection Loop → Type 0
  IsWatched c = IsSynced c.stream.watcher

  abbrev pub IsReleased : Watcher Loop → Type 0
  IsReleased w = IsInactive w.loop

  -- Each open connection is watched for what its flags say, and no freed one is watched.
  abbrev pub IsQuiet : {D : Type 0} → ModbusTcpSlave Loop D → Type 0
  IsQuiet s = All IsWatched s.connections × All IsReleased s.freed

  -- The memory of a new connection has `ev_io` that are inactive.
  abbrev pub IsFresh : Event Loop → Type 0
  IsFresh (accepts (some mem) newsd) = IsInactive mem.loop
  IsFresh (accepts none newsd) = Unit
  IsFresh (event_on _ _ _ _) = Unit
  IsFresh starts = Unit
  IsFresh stops = Unit

module _ {Loop : Type 0} ⦃ev : EventLoop Loop⦄ where
  memory-IsFresh :
      (mem : Option (Memory Loop)) (newsd : Option ℕ) (sd : ℕ)
      → IsFresh (accepts mem newsd)
      → IsFresh (accepts mem (some sd))
  memory-IsFresh none newsd sd h = tt
  memory-IsFresh (some mem) newsd sd h = h

module _ {Loop D : Type 0} ⦃ev : EventLoop Loop⦄ where
  dealloc-IsQuiet :
      (c : Connection Loop) (s : ModbusTcpSlave Loop D)
      → IsWatched c
      → IsQuiet s
      → IsQuiet (modbus_tcp_slave_dealloc_conn c s)
  unfolding modbus_tcp_slave_dealloc_conn
  dealloc-IsQuiet c s w h =
      (All-list_del IsWatched c.sd s.connections h.0, (deinit-IsInactive c.stream w, h.1))

  dealloc_all-IsQuiet :
      (cs : List (Connection Loop)) (s : ModbusTcpSlave Loop D)
      → All IsWatched cs
      → IsQuiet s
      → IsQuiet (dealloc_all cs s)
  unfolding dealloc_all
  dealloc_all-IsQuiet [] s w h = h
  dealloc_all-IsQuiet (c ∷ cs) s w h =
      dealloc_all-IsQuiet cs (modbus_tcp_slave_dealloc_conn c s) w.1 (dealloc-IsQuiet c s w.0 h)

  alloc-IsQuiet :
      (mem : Option (Memory Loop)) (sd : ℕ) (s : ModbusTcpSlave Loop D)
      → IsFresh (accepts mem (some sd))
      → IsQuiet s
      → IsQuiet (modbus_tcp_slave_alloc_conn mem sd s)
  unfolding modbus_tcp_slave_alloc_conn
  alloc-IsQuiet none sd s fresh h = h
  alloc-IsQuiet (some mem) sd s fresh h = (
    All-append IsWatched s.connections (new_connection mem sd ∷ []) h.0
        (started-IsSynced mem.loop mem.rx_buf 512 512 mem.tx_storage fresh, tt),
    h.1,
  )

module _ {Loop D : Type 0} ⦃ev : EventLoop Loop⦄ (cb : SlaveCallbacks D)
    (ret : ℕ → ℕ → WriteResult) where
  frame-IsSynced :
      (sd : ℕ) (r : MbapReader) (v : TcpSlave Loop D)
      → IsSynced v.stream.watcher
      → IsSynced (modbus_tcp_slave_got_frame cb (ret sd) r v).1.stream.watcher
  unfolding modbus_tcp_slave_got_frame modbus_tcp_slave_handle_rx_frame
  frame-IsSynced sd r v h =
      let pdu = (modbus_rtu_handler_request_rx cb r.uid (tcp_request cb (ret sd) r v)).pdu in
      let response = finish_tcp_frame (take 7 r.frame ++ pdu.frame) pdu.len in
      ground (arith, write-IsSynced v.stream response (ret sd (length v.sent)) h)

  called_back-IsQuiet :
      (e : Option StreamEvent) (c : Connection Loop) (s : ModbusTcpSlave Loop D)
      → IsWatched c
      → IsQuiet s
      → IsQuiet (called_back cb ret c e s)
  unfolding modbus_tcp_slave_handle_stream_event
  called_back-IsQuiet none c s w h = h
  called_back-IsQuiet (some StreamEvent.rx) c s w h = (
    All-update_connection IsWatched _ s.connections
        (feed-keeps (modbus_tcp_slave_got_frame cb (ret c.sd)) (λ v. IsSynced v.stream.watcher)
          (frame-IsSynced c.sd) (take c.stream.rx_data_len c.stream.rx_buf) c.mbap_reader (view s c)
          w)
        h.0,
    h.1,
  )
  called_back-IsQuiet (some StreamEvent.eof) c s w h = dealloc-IsQuiet c s w h
  called_back-IsQuiet (some StreamEvent.err) c s w h = dealloc-IsQuiet c s w h
  called_back-IsQuiet (some StreamEvent.tx) c s w h = h

  step-IsQuiet :
      (e : Event Loop) (s s' : ModbusTcpSlave Loop D)
      → IsFresh e
      → step cb ret e s ≡ some s'
      → IsQuiet s
      → IsQuiet s'
  unfolding step tcp_server_rx_event modbus_tcp_slave_start modbus_tcp_slave_stop
  step-IsQuiet (accepts mem none) s s' fresh h q = subst IsQuiet (some-injective s s' h) q
  step-IsQuiet (accepts mem (some sd)) s s' fresh h q =
      subst IsQuiet (some-injective _ s' h)
        (alloc-IsQuiet mem sd s (memory-IsFresh mem (some sd) sd fresh) q)
  step-IsQuiet (event_on sd e rd wr) s s' fresh h q = elim (step_inv cb ret sd e rd wr s s' h) [
    | inl same ↦ subst IsQuiet (sym same) q
    | inr (c, r, found, called, moved) ↦
        let c' = record c { stream = r.stream } in
        let w =
          callback-IsSynced c.stream e rd wr r called
            (All-find_connection IsWatched sd s.connections c q.0 found) in
        subst IsQuiet (sym moved) (
          called_back-IsQuiet r.result c'
            (record s { connections = update_connection c' s.connections }) w
            (All-update_connection IsWatched c' s.connections w q.0, q.1))
  ]
  step-IsQuiet starts s s' fresh h q = subst IsQuiet (some-injective _ s' h) q
  step-IsQuiet stops s s' fresh h q =
      subst IsQuiet (some-injective _ s' h)
        (dealloc_all-IsQuiet s.connections (record s { server = tcp_server_stop s.server }) q.0 q)

  -- Clients come and go, their connections have events, and the slave starts and stops, in any
  -- order and without a crash; each new connection has `ev_io` that are inactive. If it holds
  -- before that the event loop watches each open connection exactly for what its flags say and no
  -- connection that was freed, then it holds after it.
  pub run-IsQuiet :
      (es : List (Event Loop)) (s s' : ModbusTcpSlave Loop D)
      → All IsFresh es
      → run cb ret es s ≡ some s'
      → IsQuiet s
      → IsQuiet s'
  unfolding run
  run-IsQuiet [] s s' fresh h q = subst IsQuiet (some-injective s s' h) q
  run-IsQuiet (e ∷ es) s s' fresh h q =
      let (t, one_step, rest) = run_inv cb ret e es s s' h in
      run-IsQuiet es t s' fresh.1 rest (step-IsQuiet e s t fresh.0 one_step q)
