-- ===== src/Watcher/Examples.antt =====
-- Watchers over an event loop that is the set of its active `ev_io`.
use kongjaexpress.Prelude.{refl, Bool, true, false, if◌then◌else◌, List, [], ◌∷◌}
use kongjaexpress.Watcher.{Target, rx, tx, er, same, EventLoop, Call, start, stop, watch, no_watch}

abbrev pub ActiveSet : Type 0
ActiveSet = Target → Bool

instance abbrev pub active_sets : EventLoop ActiveSet
active_sets = record {
  ev_io_start = λ t l s. if same s t then true else l s;
  ev_io_stop = λ t l s. if same s t then false else l s;
  ev_is_active = λ t l. l t;
  active-start = λ s t l. refl;
  active-stop = λ s t l. refl;
}

abbrev script : List Call
script = watch rx ∷ watch er ∷ start ∷ watch tx ∷ no_watch rx ∷ stop ∷ start ∷ []
