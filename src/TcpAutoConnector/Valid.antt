-- ===== src/TcpAutoConnector/Valid.antt =====
-- What it means that the state of a connector agrees with its timers and its watcher, and that no
-- descriptor is lost.
use kongjaexpress.Prelude.{
  one, count, ℕ, ◌+◌, ◌≡◌, List, [], ◌∷◌, Bool, true, false, Option, none, some,
}
use kongjaexpress.TcpConnector.{TcpConnector, Status, success, failure, in_progress, timeout}
use kongjaexpress.TcpAutoConnector.{
  AutoConnector, AutoState, not_started, connecting, reconnect_wait,
}

-- whether an option has a value
abbrev pub is_some : {A : Type 0} → Option A → Bool
is_some none = false
is_some (some _) = true

abbrev pub held : ℕ → Option ℕ → ℕ
held d none = 0
held d (some sd) = one d sd

-- how often the client's callback was given `d`
unfoldable pub given : ℕ → List (Option ℕ) → ℕ
given d [] = 0
given d (call ∷ calls) = held d call + given d calls

abbrev pub is_connecting : AutoState → Bool
is_connecting connecting = true
is_connecting not_started = false
is_connecting reconnect_wait = false

abbrev pub is_waiting : AutoState → Bool
is_waiting reconnect_wait = true
is_waiting not_started = false
is_waiting connecting = false

-- what a status that the connector reports means for it
abbrev pub is_in_progress : Status → Bool
is_in_progress in_progress = true
is_in_progress success = false
is_in_progress failure = false
is_in_progress timeout = false

-- whether an attempt is under way, on the three places that say so
pub record IsBusy {Loop : Type 0} (b : Bool) (tcp : TcpConnector Loop) : Type 0 where
  pub prog : tcp.is_in_prog ≡ b
  pub tmr : tcp.tmr ≡ b
  pub watched : tcp.watcher.started ≡ b

-- Every descriptor that was opened was closed, was given to the client, or is held, as often as it
-- was opened.
unfoldable pub IsBalanced : {Loop : Type 0} → AutoConnector Loop → Type 0
IsBalanced conn =
    (d : ℕ)
    → count d conn.tcp.fds.opened
      ≡ count d conn.tcp.fds.closed + given d conn.calls + held d conn.tcp.sd

pub record IsValid {Loop : Type 0} (conn : AutoConnector Loop) : Type 0 where
  pub busy : IsBusy (is_connecting conn.state) conn.tcp
  pub waits : conn.reconn_wait_tmr ≡ is_waiting conn.state
  pub holds : is_some conn.tcp.sd ≡ is_connecting conn.state
  pub balanced : IsBalanced conn

-- A connector whose attempt has just reported a status.
pub record IsReported {Loop : Type 0} (status : Status) (conn : AutoConnector Loop) : Type 0 where
  pub busy : IsBusy (is_in_progress status) conn.tcp
  pub waits : conn.reconn_wait_tmr ≡ false
  pub holds : is_in_progress status ≡ true → is_some conn.tcp.sd ≡ true
  pub balanced : IsBalanced conn
