-- ===== src/Modbus/TcpSlave/Connections/Steps.antt =====
-- What a step of the slave that does not crash has done.
use kongjaexpress.Prelude.{
  ℕ, ◌≡◌, refl, ap, ◌∙◌, arith, List, ◌∷◌, Option, none, some, ◌⊎◌, inl, inr,
}
use kongjaexpress.Prelude.Chains.{chained, chain}
use kongjaexpress.Watcher.{EventLoop}
use kongjaexpress.Stream.{
  StreamEvent, Sent, WriteResult, WatcherEvent, ReadResult, stream_watcher_callback,
}
use kongjaexpress.Modbus.Common.{SlaveCallbacks}
use kongjaexpress.Modbus.TcpSlave.Connections.{
  Connection, ModbusTcpSlave, Event, event_on, find_connection, update_connection, called_back,
  connection_event, step, run,
}

module _ {Loop D : Type 0} ⦃ev : EventLoop Loop⦄ (cb : SlaveCallbacks D)
    (ret : ℕ → ℕ → WriteResult) where
  -- An event of a connection is handled by its stream, and the result by the slave.
  pub event_inv :
      (e : WatcherEvent) (rd : ReadResult) (wr : WriteResult) (c : Connection Loop)
      (s s' : ModbusTcpSlave Loop D)
      → connection_event cb ret e rd wr c s ≡ some s'
      → (r : Sent Loop (Option StreamEvent)) × (stream_watcher_callback c.stream e rd wr ≡ some r)
        × (let c' = record c { stream = r.stream } in
            s'
            ≡ called_back cb ret c' r.result
                (record s { connections = update_connection c' s.connections }))
  unfolding connection_event
  event_inv e rd wr c s s' h =
      let (r, called, done) = chained (stream_watcher_callback c.stream e rd wr) _ s' h in
      (r, called, ground arith)

  -- The event is for the connection with its descriptor, if there is one.
  abbrev pub Handled :
      ℕ
      → WatcherEvent
      → ReadResult
      → WriteResult
      → ModbusTcpSlave Loop D
      → ModbusTcpSlave Loop D
      → Type 0
  Handled sd e rd wr s s' =
      (s' ≡ s)
      ⊎ ((c : Connection Loop) × (r : Sent Loop (Option StreamEvent)) × (find_connection sd
              s.connections
            ≡ some c)
          × (stream_watcher_callback c.stream e rd wr ≡ some r)
          × (let c' = record c { stream = r.stream } in
              s'
              ≡ called_back cb ret c' r.result
                  (record s { connections = update_connection c' s.connections })))

  pub step_inv :
      (sd : ℕ) (e : WatcherEvent) (rd : ReadResult) (wr : WriteResult)
      (s s' : ModbusTcpSlave Loop D)
      → step cb ret (event_on sd e rd wr) s ≡ some s'
      → Handled sd e rd wr s s'
  unfolding step
  step_inv sd e rd wr s s' h =
      elim (find_connection sd s.connections)
          as (λ o.
            find_connection sd s.connections ≡ o
            → (elim o [ none ↦ some s | some c ↦ connection_event cb ret e rd wr c s ]) ≡ some s'
            → Handled sd e rd wr s s') [
              | none ↦ λ at k. inl (ground arith)
              | some c ↦ λ at k.
                  let (r, called, done) = event_inv e rd wr c s s' k in inr (c, r, at, called, done)
            ]
        refl h

  pub run_inv :
      (e : Event Loop) (es : List (Event Loop)) (s s' : ModbusTcpSlave Loop D)
      → run cb ret (e ∷ es) s ≡ some s'
      → (t : ModbusTcpSlave Loop D) × (step cb ret e s ≡ some t) × (run cb ret es t ≡ some s')
  unfolding run
  run_inv e es s s' h = chained (step cb ret e s) (run cb ret es) s' h

  pub run_next :
      (e : Event Loop) (es : List (Event Loop)) (s t s' : ModbusTcpSlave Loop D)
      → step cb ret e s ≡ some t
      → run cb ret es t ≡ some s'
      → run cb ret (e ∷ es) s ≡ some s'
  unfolding run
  run_next e es s t s' h k = chain (step cb ret e s) t (run cb ret es) h ∙ k

  pub event_step :
      (sd : ℕ) (e : WatcherEvent) (rd : ReadResult) (wr : WriteResult) (s : ModbusTcpSlave Loop D)
      (c : Connection Loop)
      → find_connection sd s.connections ≡ some c
      → step cb ret (event_on sd e rd wr) s ≡ connection_event cb ret e rd wr c s
  unfolding step
  event_step sd e rd wr s c h =
      ap (λ o. elim o [ none ↦ some s | some x ↦ connection_event cb ret e rd wr x s ]) h
