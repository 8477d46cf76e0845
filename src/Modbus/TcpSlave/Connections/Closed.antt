-- ===== src/Modbus/TcpSlave/Connections/Closed.antt =====
-- Every descriptor that the server accepts is in an open connection or closed.
use kongjaexpress.Prelude.{
  ℕ, ◌+◌, ◌≤◌, ◌≡◌, refl, ap, ◌∙◌, arith, List, [], ◌∷◌, ◌++◌, map, Option, none, some, inl, inr,
  count, erase, one, count-append, count-erase,
}
use kongjaexpress.Watcher.{EventLoop}
use kongjaexpress.Stream.{StreamEvent, WriteResult}
use kongjaexpress.TcpServer.{tcp_server_rx_event, tcp_server_stop}
use kongjaexpress.Modbus.Common.{SlaveCallbacks}
use kongjaexpress.Modbus.TcpSlave.Connections.Steps.{step_inv, run_inv}
use kongjaexpress.Modbus.TcpSlave.Connections.{
  Connection, ModbusTcpSlave, Memory, Event, accepts, event_on, starts, stops, find_connection,
  update_connection, list_del, modbus_tcp_slave_alloc_conn, modbus_tcp_slave_dealloc_conn,
  modbus_tcp_slave_handle_stream_event, called_back, dealloc_all, modbus_tcp_slave_start,
  modbus_tcp_slave_stop, step, run,
}

-- the descriptors of the connections
abbrev pub descriptors : {Loop : Type 0} → List (Connection Loop) → List ℕ
descriptors cs = map (λ c. c.sd) cs

module _ {Loop : Type 0} where
  descriptors-update_connection :
      (c : Connection Loop) (xs : List (Connection Loop))
      → descriptors (update_connection c xs) ≡ descriptors xs
  unfolding update_connection
  descriptors-update_connection c [] = refl
  descriptors-update_connection c (x ∷ xs) = ground (arith, descriptors-update_connection c xs)

  descriptors-list_del :
      (sd : ℕ) (xs : List (Connection Loop))
      → descriptors (list_del sd xs) ≡ erase sd (descriptors xs)
  unfolding list_del erase
  descriptors-list_del sd [] = refl
  descriptors-list_del sd (x ∷ xs) = ground (arith, descriptors-list_del sd xs)

  descriptors-append :
      (xs ys : List (Connection Loop)) → descriptors (xs ++ ys) ≡ descriptors xs ++ descriptors ys
  descriptors-append [] ys = refl
  descriptors-append (x ∷ xs) ys = ap (λ t. x.sd ∷ t) (descriptors-append xs ys)

  list_del_first : (x : Connection Loop) (xs : List (Connection Loop)) → list_del x.sd (x ∷ xs) ≡ xs
  unfolding list_del
  list_del_first x xs = ground arith

  count_first :
      (x : Connection Loop) (xs : List (Connection Loop)) → 1 ≤ count x.sd (descriptors (x ∷ xs))
  unfolding count
  count_first x xs = ground arith

  pub find_connection-descriptors :
      (sd : ℕ) (xs : List (Connection Loop)) (c : Connection Loop)
      → find_connection sd xs ≡ some c
      → (c.sd ≡ sd) × (1 ≤ count sd (descriptors xs))
  unfolding find_connection count
  find_connection-descriptors sd [] c h = ground arith
  find_connection-descriptors sd (x ∷ xs) c h = ground (arith, find_connection-descriptors sd xs c)

-- how often a descriptor is closed or open
abbrev pub kept : {Loop D : Type 0} → ℕ → ModbusTcpSlave Loop D → ℕ
kept d s = count d s.closed + count d (descriptors s.connections)

-- the descriptors that `accept` gives
abbrev pub accepted : {Loop : Type 0} → List (Event Loop) → List ℕ
accepted [] = []
accepted (accepts mem (some sd) ∷ es) = sd ∷ accepted es
accepted (accepts mem none ∷ es) = accepted es
accepted (event_on _ _ _ _ ∷ es) = accepted es
accepted (starts ∷ es) = accepted es
accepted (stops ∷ es) = accepted es

module _ {Loop D : Type 0} ⦃ev : EventLoop Loop⦄ where
  alloc-kept :
      (mem : Option (Memory Loop)) (sd d : ℕ) (s : ModbusTcpSlave Loop D)
      → kept d (modbus_tcp_slave_alloc_conn mem sd s) ≡ one d sd + kept d s
  unfolding modbus_tcp_slave_alloc_conn count
  alloc-kept none sd d s = omega arith
  alloc-kept (some mem) sd d s =
      rw (descriptors-append s.connections _, count-append d (descriptors s.connections) _)
        (omega arith)

  dealloc-kept :
      (c : Connection Loop) (s : ModbusTcpSlave Loop D) (d : ℕ)
      → 1 ≤ count c.sd (descriptors s.connections)
      → kept d (modbus_tcp_slave_dealloc_conn c s) ≡ kept d s
  unfolding modbus_tcp_slave_dealloc_conn count
  dealloc-kept c s d h =
      rw (descriptors-list_del c.sd s.connections)
        (omega (arith, count-erase d c.sd (descriptors s.connections) h))

  dealloc_first :
      (s : ModbusTcpSlave Loop D) (c : Connection Loop) (cs : List (Connection Loop))
      → s.connections ≡ c ∷ cs
      → (modbus_tcp_slave_dealloc_conn c s).connections ≡ cs
  unfolding modbus_tcp_slave_dealloc_conn
  dealloc_first s c cs h = ap (list_del c.sd) h ∙ list_del_first c cs

  -- Of connections that go one after the other, none is left.
  pub dealloc_all-kept :
      (cs : List (Connection Loop)) (s : ModbusTcpSlave Loop D) (d : ℕ)
      → s.connections ≡ cs
      → (kept d (dealloc_all cs s) ≡ kept d s) × ((dealloc_all cs s).connections ≡ [])
  unfolding dealloc_all
  dealloc_all-kept [] s d h = (refl, h)
  dealloc_all-kept (c ∷ cs) s d h =
      let s' = modbus_tcp_slave_dealloc_conn c s in
      let rest = dealloc_all-kept cs s' d (dealloc_first s c cs h) in
      let one_gone = dealloc-kept c s d (rw h (count_first c cs)) in (rest.0 ∙ one_gone, rest.1)

  -- Stopping the slave closes every open connection.
  pub stop-kept :
      (s : ModbusTcpSlave Loop D) (d : ℕ)
      → (kept d (modbus_tcp_slave_stop s) ≡ kept d s) × ((modbus_tcp_slave_stop s).connections ≡ [])
  unfolding modbus_tcp_slave_stop
  stop-kept s d =
      dealloc_all-kept s.connections (record s { server = tcp_server_stop s.server }) d refl

module _ {Loop D : Type 0} ⦃ev : EventLoop Loop⦄ (cb : SlaveCallbacks D)
    (ret : ℕ → ℕ → WriteResult) where
  called_back-kept :
      (e : Option StreamEvent) (c : Connection Loop) (s : ModbusTcpSlave Loop D) (d : ℕ)
      → 1 ≤ count c.sd (descriptors s.connections)
      → kept d (called_back cb ret c e s) ≡ kept d s
  unfolding modbus_tcp_slave_handle_stream_event
  called_back-kept none c s d h = refl
  called_back-kept (some StreamEvent.rx) c s d h =
      rw (descriptors-update_connection _ s.connections) refl
  called_back-kept (some StreamEvent.eof) c s d h = dealloc-kept c s d h
  called_back-kept (some StreamEvent.err) c s d h = dealloc-kept c s d h
  called_back-kept (some StreamEvent.tx) c s d h = refl

  step-kept :
      (e : Event Loop) (s s' : ModbusTcpSlave Loop D) (d : ℕ)
      → step cb ret e s ≡ some s'
      → kept d s' ≡ count d (accepted (e ∷ [])) + kept d s
  unfolding step count tcp_server_rx_event modbus_tcp_slave_start
  step-kept (accepts mem none) s s' d h = ground arith
  step-kept (accepts mem (some sd)) s s' d h = ground (arith, alloc-kept mem sd d s)
  step-kept (event_on sd e rd wr) s s' d h = elim (step_inv cb ret sd e rd wr s s' h) [
    | inl same ↦ ground arith
    | inr (c, r, found, _, moved) ↦
        let c' = record c { stream = r.stream } in
        let t = record s { connections = update_connection c' s.connections } in
        let at = find_connection-descriptors sd s.connections c found in
        let same = descriptors-update_connection c' s.connections in
        let there : 1 ≤ count c.sd (descriptors t.connections) = ground arith in
        ground (arith, called_back-kept r.result c' t d there)
  ]
  step-kept starts s s' d h = ground arith
  step-kept stops s s' d h = ground (arith, stop-kept s d)

  count-accepted :
      (e : Event Loop) (es : List (Event Loop)) (d : ℕ)
      → count d (accepted (e ∷ es)) ≡ count d (accepted (e ∷ [])) + count d (accepted es)
  unfolding count
  count-accepted (accepts mem none) es d = omega arith
  count-accepted (accepts mem (some sd)) es d = omega arith
  count-accepted (event_on _ _ _ _) es d = omega arith
  count-accepted starts es d = omega arith
  count-accepted stops es d = omega arith

  run-kept_from :
      (es : List (Event Loop)) (s s' : ModbusTcpSlave Loop D) (d : ℕ)
      → run cb ret es s ≡ some s'
      → kept d s' ≡ count d (accepted es) + kept d s
  unfolding run count
  run-kept_from [] s s' d h = ground arith
  run-kept_from (e ∷ es) s s' d h =
      let (t, one_step, rest) = run_inv cb ret e es s s' h in
      omega (arith, step-kept e s t d one_step, run-kept_from es t s' d rest, count-accepted e es d)

  -- The slave goes through any events without a crash. Every descriptor that its server accepted is
  -- closed, or in an open connection, exactly as often as it was accepted, besides the descriptors
  -- that were closed and open before. When the slave is then stopped, no connection is left, and
  -- each of these descriptors is closed.
  pub run-kept :
      (es : List (Event Loop)) (s s' : ModbusTcpSlave Loop D) (d : ℕ)
      → run cb ret es s ≡ some s'
      → (kept d s' ≡ count d (accepted es) + kept d s)
        × ((modbus_tcp_slave_stop s').connections ≡ [])
        × (count d (modbus_tcp_slave_stop s').closed ≡ count d (accepted es) + kept d s)
  unfolding count
  run-kept es s s' d h =
      let whole = run-kept_from es s s' d h in
      let end = stop-kept s' d in
      let none_left = ap (λ cs. count d (descriptors cs)) end.1 in
      (whole, end.1, omega (arith, whole, end.0, none_left))
