-- ===== src/TcpServer/Examples.antt =====
-- A server on descriptor 5.
use kongjaexpress.Prelude.{◌≡◌, refl, [], ◌∷◌, true, false, none}
use kongjaexpress.Watcher.{rx, tx, er}
use kongjaexpress.Watcher.Examples.{ActiveSet, active_sets}
use kongjaexpress.TcpServer.{
  tcp_server_start, tcp_server_stop, tcp_server_init, TcpServer, ipv4, ready, tcp_server_ipv4_init,
  tcp_server_unix_domain_init,
}
use kongjaexpress.TcpServer.Listening.{
  starts, stops, serve, serve_all, IsAccounted, ipv4_init-IsReady,
}

abbrev pub unused : TcpServer ActiveSet
unused = record {
  sd = none;
  is_listening = false;
  server_type = ipv4;
  watcher = record {
    rx_watch = false;
    tx_watch = false;
    er_watch = false;
    started = false;
    loop = λ t. false;
  };
  fds = record { opened = []; closed = [] };
}

-- It listens after the second start.
listens :
    (serve_all
      (starts ∷ stops ∷ starts ∷ [])
      (tcp_server_ipv4_init unused (ready 5)).1).is_listening
    ≡ true
unfolding serve_all serve tcp_server_ipv4_init tcp_server_start tcp_server_stop tcp_server_init
listens = refl

-- On a path of the file system, -1 is returned for a server that is set up.
path_init_returns : (tcp_server_unix_domain_init unused (ready 5)).0 ≡ false
unfolding tcp_server_unix_domain_init
path_init_returns = refl

ipv4_init-IsReady_example :
    let s₂ = serve_all (starts ∷ stops ∷ starts ∷ []) (tcp_server_ipv4_init unused (ready 5)).1 in
    (active_sets.ev_is_active rx s₂.watcher.loop ≡ s₂.is_listening)
    × (active_sets.ev_is_active tx s₂.watcher.loop ≡ false)
    × (active_sets.ev_is_active er s₂.watcher.loop ≡ false)
    × IsAccounted s₂
unfolding tcp_server_ipv4_init
ipv4_init-IsReady_example =
    ipv4_init-IsReady unused (ready 5) (starts ∷ stops ∷ starts ∷ []) (λ t. refl) (λ d. refl)
