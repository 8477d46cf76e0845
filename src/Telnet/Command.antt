-- ===== src/Telnet/Command.antt =====
-- Commands through the telnet reader, and the bound of its buffer.
use kongjaexpress.Prelude.{
  ℕ, suc, ◌+◌, ◌≤◌, ◌≡◌, ◌≢◌, ◌∙◌, ap, refl, List, [], ◌∷◌, ◌++◌, arith, length, set, length-set,
  write_at, ==_iff,
}
use kongjaexpress.Prelude.Bytes.{All}
use kongjaexpress.Telnet.{
  Codes, TelnetReader, ReaderState, start, rx_iac, rx_sb, wait_for_se, buffer_size,
  telnet_reader_move_state, telnet_reader_state_machine, telnet_reader_feed,
  telnet_reader_handle_command, telnet_reader_handle_subcommand,
}
use kongjaexpress.Telnet.Data.{feed-append, feed_step, first_iac}

-- The code that begins a subnegotiation is none of the other codes that follow an IAC.
abbrev pub SbIsDistinct : Codes → Type 0
SbIsDistinct k =
    (k.sb_code ≢ k.iac)
    × (k.sb_code ≢ k.do_code)
    × (k.sb_code ≢ k.dont_code)
    × (k.sb_code ≢ k.will_code)
    × (k.sb_code ≢ k.wont_code)

-- The buffer is whole and the index is in it or at its end.
abbrev pub IsBounded : TelnetReader → Type 0
IsBounded tr = (length tr.buffer ≡ buffer_size) × (tr.buf_ndx ≤ buffer_size)

module _ (k : Codes) {W : Type 0} (databack : TelnetReader → ℕ → W → W)
    (cmdback : TelnetReader → W → W) where
  -- a reader in a subnegotiation that has stored bytes
  abbrev pub storing : TelnetReader → ReaderState → List ℕ → ℕ → TelnetReader
  storing tr s bytes ndx = record tr {
    state = s;
    command = k.sb_code;
    buffer = bytes;
    buf_ndx = ndx;
  }

  store_one :
      (x : ℕ) (tr : TelnetReader) (bytes : List ℕ) (ndx : ℕ) (w : W)
      → x ≢ k.iac
      → suc ndx ≤ buffer_size
      → ◌≡◌ {A = TelnetReader × W}
          (telnet_reader_state_machine k databack cmdback (storing tr rx_sb bytes ndx) x w)
          (storing tr rx_sb (set bytes ndx x) (suc ndx), w)
  unfolding telnet_reader_state_machine telnet_reader_handle_subcommand
  store_one x tr bytes ndx w ne h = ground arith

  store-All :
      (xs : List ℕ) (tr : TelnetReader) (bytes : List ℕ) (ndx : ℕ) (w : W)
      → All (λ x. x ≢ k.iac) xs
      → ndx + length xs ≤ buffer_size
      → telnet_reader_feed k databack cmdback (storing tr rx_sb bytes ndx) xs w
        ≡ (storing tr rx_sb (write_at bytes ndx xs) (ndx + length xs), w)
  unfolding telnet_reader_feed write_at
  store-All [] tr bytes ndx w ne h = ap (λ (n : ℕ). (storing tr rx_sb bytes n, w)) (omega arith)
  store-All (x ∷ xs) tr bytes ndx w ne h =
      feed_step k databack cmdback x xs (storing tr rx_sb bytes ndx)
        (storing tr rx_sb (set bytes ndx x) (suc ndx)) w w
        (store_one x tr bytes ndx w ne.0 (omega arith))
      ∙ store-All xs tr (set bytes ndx x) (suc ndx) w ne.1 (omega arith)
      ∙ ap (λ (n : ℕ). (storing tr rx_sb (write_at (set bytes ndx x) (suc ndx) xs) n, w))
          (omega arith)

  open_sb :
      (tr : TelnetReader) (w : W)
      → SbIsDistinct k
      → ◌≡◌ {A = TelnetReader × W}
          (telnet_reader_state_machine k databack cmdback
            (telnet_reader_move_state tr rx_iac)
            k.sb_code
            w)
          (storing tr rx_sb tr.buffer 0, w)
  unfolding telnet_reader_state_machine telnet_reader_handle_command
  open_sb tr w d = ground (arith, d)

  end_sb :
      (tr : TelnetReader) (bytes : List ℕ) (ndx : ℕ) (w : W)
      → ◌≡◌ {A = TelnetReader × W}
          (telnet_reader_state_machine k databack cmdback (storing tr rx_sb bytes ndx) k.iac w)
          (storing tr wait_for_se bytes ndx, w)
  unfolding telnet_reader_state_machine telnet_reader_handle_subcommand
  end_sb tr bytes ndx w = ground arith

  close_sb :
      (tr : TelnetReader) (bytes : List ℕ) (ndx : ℕ) (w : W)
      → ◌≡◌ {A = TelnetReader × W}
          (telnet_reader_state_machine k databack cmdback
            (storing tr wait_for_se bytes ndx)
            k.se_code
            w)
          (storing tr start bytes ndx, cmdback (storing tr wait_for_se bytes ndx) w)
  unfolding telnet_reader_state_machine
  close_sb tr bytes ndx w = ground arith

  -- A reader at the start of its state machine is fed a subnegotiation of at most 32 bytes with no
  -- IAC among them: the command callback is called once, with the bytes at the start of the buffer
  -- and their number in its index, the data callback is not called, and the reader is at the start
  -- again.
  pub feed-subnegotiation :
      (xs : List ℕ) (tr : TelnetReader) (w : W)
      → SbIsDistinct k
      → All (λ x. x ≢ k.iac) xs
      → length xs ≤ buffer_size
      → let bytes = write_at tr.buffer 0 xs in
        telnet_reader_feed k databack cmdback
          (telnet_reader_move_state tr start)
          (k.iac ∷ k.sb_code ∷ (xs ++ k.iac ∷ k.se_code ∷ []))
          w
        ≡ (storing tr start bytes (length xs), cmdback (storing tr wait_for_se bytes (length xs)) w)
  unfolding telnet_reader_feed
  feed-subnegotiation xs tr w d ne h =
      let tail = xs ++ k.iac ∷ k.se_code ∷ [] in
      let bytes = write_at tr.buffer 0 xs in
      let n = 0 + length xs in
      feed_step k databack cmdback k.iac (k.sb_code ∷ tail) _ (telnet_reader_move_state tr rx_iac) w
        w (first_iac k databack cmdback k.iac tr w ((==_iff k.iac k.iac).1 refl))
      ∙ feed_step k databack cmdback k.sb_code tail _ (storing tr rx_sb tr.buffer 0) w w
          (open_sb tr w d)
      ∙ feed-append k databack cmdback xs (k.iac ∷ k.se_code ∷ []) (storing tr rx_sb tr.buffer 0) w
      ∙ ap
          (λ (p : TelnetReader × W).
            telnet_reader_feed k databack cmdback p.0 (k.iac ∷ k.se_code ∷ []) p.1)
          (store-All xs tr tr.buffer 0 w ne (omega arith))
      ∙ feed_step k databack cmdback k.iac (k.se_code ∷ []) _ (storing tr wait_for_se bytes n) w w
          (end_sb tr bytes n w)
      ∙ feed_step k databack cmdback k.se_code [] _ (storing tr start bytes n) w _
          (close_sb tr bytes n w)
      ∙ ap (λ (m : ℕ). (storing tr start bytes m, cmdback (storing tr wait_for_se bytes m) w))
          (omega arith)

  step-IsBounded :
      (d : ℕ) (tr : TelnetReader) (w : W)
      → IsBounded tr
      → IsBounded (telnet_reader_state_machine k databack cmdback tr d w).0
  unfolding telnet_reader_state_machine telnet_reader_handle_command telnet_reader_handle_subcommand
  step-IsBounded d tr w v = ground (arith, v, length-set tr.buffer tr.buf_ndx d)

  -- Whatever bytes come in, in whatever state, the buffer keeps its 32 bytes and the index of the
  -- next one stays within it or at its end.
  pub feed-IsBounded :
      (ds : List ℕ) (tr : TelnetReader) (w : W)
      → IsBounded tr
      → IsBounded (telnet_reader_feed k databack cmdback tr ds w).0
  unfolding telnet_reader_feed
  feed-IsBounded [] tr w v = v
  feed-IsBounded (d ∷ ds) tr w v =
      let (tr', w') = telnet_reader_state_machine k databack cmdback tr d w in
      feed-IsBounded ds tr' w' (step-IsBounded d tr w v)
