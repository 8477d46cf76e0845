-- ===== src/Telnet.antt =====
-- src/protocols/telnet_reader.c and inc/telnet_reader.h: the reader that takes the commands out of
-- a telnet byte stream. The codes of the protocol come from a system header: they are a parameter.
-- The two callbacks read the reader and change the world `W`.
pub mod Data
pub mod World
pub mod Command
mod Examples
use kongjaexpress.Prelude.{
  ℕ, ◌+◌, List, [], ◌∷◌, Bool, true, false, ◌||◌, ltb, ◌==◌, if◌then◌else◌, set,
}

-- the codes of <arpa/telnet.h> that the reader uses
pub record Codes : Type 0 where
  pub iac : ℕ
  pub do_code : ℕ
  pub dont_code : ℕ
  pub will_code : ℕ
  pub wont_code : ℕ
  pub sb_code : ℕ
  pub se_code : ℕ

-- TELNET_READER_BUFFER_SIZE
abbrev pub buffer_size : ℕ
buffer_size = 32

-- `telnet_reader_state_t`
pub data ReaderState : Type 0 where
  start rx_iac rx_do_dont_will_wont rx_sb wait_for_se : ReaderState

pub record TelnetReader : Type 0 where
  pub buffer : List ℕ
  pub buf_ndx : ℕ
  pub state : ReaderState
  pub command : ℕ
  pub opt : ℕ

abbrev pub telnet_reader_move_state : TelnetReader → ReaderState → TelnetReader
telnet_reader_move_state tr s = record tr { state = s }

unfoldable pub telnet_reader_init : TelnetReader → TelnetReader
telnet_reader_init tr = record tr { state = start; buf_ndx = 0 }

module _ (k : Codes) where
  unfoldable pub telnet_reader_handle_command : TelnetReader → ℕ → Bool × TelnetReader
  telnet_reader_handle_command tr d =
      let tr₁ = record tr { command = d } in
      if d == k.do_code || d == k.dont_code || d == k.will_code || d == k.wont_code
      then (true, telnet_reader_move_state tr₁ rx_do_dont_will_wont)
      else if d == k.sb_code
      then (true, telnet_reader_move_state (record tr₁ { buf_ndx = 0 }) rx_sb)
      else (false, tr₁)

  unfoldable pub telnet_reader_handle_subcommand : TelnetReader → ℕ → Bool × TelnetReader
  telnet_reader_handle_subcommand tr d =
      if d == k.iac
      then (true, telnet_reader_move_state tr wait_for_se)
      else if ltb tr.buf_ndx buffer_size
      then (true, record tr { buffer = set tr.buffer tr.buf_ndx d; buf_ndx = tr.buf_ndx + 1 })
      else (false, tr)

  module _ {W : Type 0} (databack : TelnetReader → ℕ → W → W) (cmdback : TelnetReader → W → W) where
    in_start : TelnetReader → ℕ → W → TelnetReader × W
    in_start tr d w =
        if d == k.iac then (telnet_reader_move_state tr rx_iac, w) else (tr, databack tr d w)

    in_rx_iac : TelnetReader → ℕ → W → TelnetReader × W
    in_rx_iac tr d w =
        let tr₁ = telnet_reader_move_state tr start in
        let (known, tr₂) = telnet_reader_handle_command tr d in
        if d == k.iac
        then (tr₁, databack tr₁ k.iac w)
        else (if known then tr₂ else telnet_reader_move_state tr₂ start, w)

    in_option : TelnetReader → ℕ → W → TelnetReader × W
    in_option tr d w =
        let tr₁ = record tr { opt = d } in (telnet_reader_move_state tr₁ start, cmdback tr₁ w)

    in_rx_sb : TelnetReader → ℕ → W → TelnetReader × W
    in_rx_sb tr d w =
        let (stored, tr₁) = telnet_reader_handle_subcommand tr d in
        (if stored then tr₁ else telnet_reader_move_state tr₁ start, w)

    in_wait_for_se : TelnetReader → ℕ → W → TelnetReader × W
    in_wait_for_se tr d w =
        (telnet_reader_move_state tr start, if d == k.se_code then cmdback tr w else w)

    in_state : ReaderState → TelnetReader → ℕ → W → TelnetReader × W
    in_state start = in_start
    in_state rx_iac = in_rx_iac
    in_state rx_do_dont_will_wont = in_option
    in_state rx_sb = in_rx_sb
    in_state wait_for_se = in_wait_for_se

    unfoldable pub telnet_reader_state_machine : TelnetReader → ℕ → W → TelnetReader × W
    unfolding in_state in_start in_rx_iac in_option in_rx_sb in_wait_for_se
    telnet_reader_state_machine tr d w = in_state tr.state tr d w

    unfoldable pub telnet_reader_feed : TelnetReader → List ℕ → W → TelnetReader × W
    telnet_reader_feed tr [] w = (tr, w)
    telnet_reader_feed tr (d ∷ ds) w =
        let (tr', w') = telnet_reader_state_machine tr d w in telnet_reader_feed tr' ds w'
