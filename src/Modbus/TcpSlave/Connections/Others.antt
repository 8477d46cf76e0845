-- ===== src/Modbus/TcpSlave/Connections/Others.antt =====
-- The connections of the slave do not disturb each other.
use kongjaexpress.Prelude.{
  ℕ, ◌≡◌, ◌≢◌, refl, arith, List, [], ◌∷◌, ◌++◌, Option, none, some, inl, inr,
}
use kongjaexpress.Prelude.Bytes.{All}
use kongjaexpress.Watcher.{EventLoop}
use kongjaexpress.Stream.{StreamEvent, WriteResult}
use kongjaexpress.TcpServer.{tcp_server_rx_event}
use kongjaexpress.Modbus.Common.{SlaveCallbacks}
use kongjaexpress.Modbus.TcpSlave.Connections.Steps.{step_inv, run_inv}
use kongjaexpress.Modbus.TcpSlave.Connections.Closed.{find_connection-descriptors}
use kongjaexpress.Modbus.TcpSlave.Connections.{
  Connection, ModbusTcpSlave, Memory, Event, accepts, event_on, starts, stops, find_connection,
  update_connection, list_del, modbus_tcp_slave_alloc_conn, modbus_tcp_slave_dealloc_conn,
  modbus_tcp_slave_handle_stream_event, called_back, modbus_tcp_slave_start, step, run,
}

module _ {Loop : Type 0} where
  find_connection-update_connection :
      (sd : ℕ) (c : Connection Loop) (xs : List (Connection Loop))
      → c.sd ≢ sd
      → find_connection sd (update_connection c xs) ≡ find_connection sd xs
  unfolding find_connection update_connection
  find_connection-update_connection sd c [] h = refl
  find_connection-update_connection sd c (x ∷ xs) h =
      ground (arith, find_connection-update_connection sd c xs)

  find_connection-list_del :
      (sd gone : ℕ) (xs : List (Connection Loop))
      → gone ≢ sd
      → find_connection sd (list_del gone xs) ≡ find_connection sd xs
  unfolding find_connection list_del
  find_connection-list_del sd gone [] h = refl
  find_connection-list_del sd gone (x ∷ xs) h = ground (arith, find_connection-list_del sd gone xs)

  find_connection-append :
      (sd : ℕ) (xs ys : List (Connection Loop)) (c : Connection Loop)
      → find_connection sd xs ≡ some c
      → find_connection sd (xs ++ ys) ≡ some c
  unfolding find_connection
  find_connection-append sd [] ys c h = absurd (ground arith)
  find_connection-append sd (x ∷ xs) ys c h = ground (arith, find_connection-append sd xs ys c)

-- an event that is not for the connection on a descriptor
abbrev pub IsOther : {Loop : Type 0} → ℕ → Event Loop → Type 0
IsOther sd (accepts mem newsd) = Unit
IsOther sd (event_on at _ _ _) = at ≢ sd
IsOther sd starts = Unit
IsOther sd stops = ⊥

module _ {Loop D : Type 0} ⦃ev : EventLoop Loop⦄ where
  alloc-found :
      (mem : Option (Memory Loop)) (newsd sd : ℕ) (c : Connection Loop) (s : ModbusTcpSlave Loop D)
      → find_connection sd s.connections ≡ some c
      → find_connection sd (modbus_tcp_slave_alloc_conn mem newsd s).connections ≡ some c
  unfolding modbus_tcp_slave_alloc_conn
  alloc-found none newsd sd c s h = h
  alloc-found (some mem) newsd sd c s h = find_connection-append sd s.connections _ c h

module _ {Loop D : Type 0} ⦃ev : EventLoop Loop⦄ (cb : SlaveCallbacks D)
    (ret : ℕ → ℕ → WriteResult) where
  called_back-others :
      (e : Option StreamEvent) (c : Connection Loop) (s : ModbusTcpSlave Loop D) (sd : ℕ)
      → c.sd ≢ sd
      → find_connection sd (called_back cb ret c e s).connections ≡ find_connection sd s.connections
  unfolding modbus_tcp_slave_handle_stream_event modbus_tcp_slave_dealloc_conn
  called_back-others none c s sd h = refl
  called_back-others (some StreamEvent.rx) c s sd h =
      find_connection-update_connection sd _ s.connections h
  called_back-others (some StreamEvent.eof) c s sd h =
      find_connection-list_del sd c.sd s.connections h
  called_back-others (some StreamEvent.err) c s sd h =
      find_connection-list_del sd c.sd s.connections h
  called_back-others (some StreamEvent.tx) c s sd h = refl

  step-others :
      (e : Event Loop) (s s' : ModbusTcpSlave Loop D) (sd : ℕ) (c : Connection Loop)
      → IsOther sd e
      → step cb ret e s ≡ some s'
      → find_connection sd s.connections ≡ some c
      → find_connection sd s'.connections ≡ some c
  unfolding step tcp_server_rx_event modbus_tcp_slave_start
  step-others (accepts mem none) s s' sd c other h at = ground arith
  step-others (accepts mem (some newsd)) s s' sd c other h at =
      ground (arith, alloc-found mem newsd sd c s at)
  step-others (event_on on e rd wr) s s' sd c other h at =
      elim (step_inv cb ret on e rd wr s s' h) [
        | inl same ↦ ground arith
        | inr (x, r, found, _, moved) ↦
            let x' = record x { stream = r.stream } in
            let t = record s { connections = update_connection x' s.connections } in
            let at_x = find_connection-descriptors on s.connections x found in
            let apart : x.sd ≢ sd = ground arith in
            ground (
              arith,
              called_back-others r.result x' t sd apart,
              find_connection-update_connection sd x' s.connections apart,
            )
      ]
  step-others starts s s' sd c other h at = ground arith
  step-others stops s s' sd c other h at = absurd other

  -- While clients come and go and their connections have events, the connection on a descriptor
  -- that has no event of its own stays as it is: until the slave stops, its stream, its reader and
  -- what it has sent are the same.
  pub run-others :
      (es : List (Event Loop)) (s s' : ModbusTcpSlave Loop D) (sd : ℕ) (c : Connection Loop)
      → All (IsOther sd) es
      → run cb ret es s ≡ some s'
      → find_connection sd s.connections ≡ some c
      → find_connection sd s'.connections ≡ some c
  unfolding run
  run-others [] s s' sd c other h at = ground arith
  run-others (e ∷ es) s s' sd c other h at =
      let (t, one_step, rest) = run_inv cb ret e es s s' h in
      run-others es t s' sd c other.1 rest (step-others e s t sd c other.0 one_step at)
