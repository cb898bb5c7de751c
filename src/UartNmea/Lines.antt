-- ===== src/UartNmea/Lines.antt =====
-- The receiving thread on a stream of whole lines, against the reference for the framing.
use esp_nmea_bridge_zephyr.Base.{
  ℕ, ◌+◌, ◌^◌, ◌<◌, ◌≡◌, Bool, true, false, List, [], ◌∷◌, ◌++◌, arith, if◌then◌else◌, ltb, ◌==◌,
  length, length-map, u32, All, dec_lt, some,
}
use esp_nmea_bridge_zephyr.Zephyr.{Msgq}
use esp_nmea_bridge_zephyr.Config.{Config}
use esp_nmea_bridge_zephyr.NmeaBridge.{Frame, Bridge, publish_frame}
use esp_nmea_bridge_zephyr.NmeaBridge.Delivery.{publish_all}
use esp_nmea_bridge_zephyr.UartNmea.{Uart, newline, rx_byte, rx_burst}
use esp_nmea_bridge_zephyr.UartNmea.Framing.{
  text, NoNewline, Line, bytes_of, stream, frames_of, overlong_of, skip_after, Is, rx_burst-append,
  rx-end, rx-overflow, rx-resume, drop_rest, store, overflow,
}

module _ {Q : Type 0} ⦃m : Msgq Frame Q⦄ (cfg : Config) (b : Bridge Q) (l : Line) where
  -- A line is handled by its body, then by its newline.
  line-split :
      (u : Uart Q)
      → rx_burst cfg u (bytes_of l) ≡ rx_byte cfg (rx_burst cfg u l.body) (newline, l.end_ms)
  unfolding rx_burst
  line-split u = rx_burst-append cfg l.body ((newline, l.end_ms) ∷ []) u

  -- The frame that a whole line makes.
  abbrev pub frame_bytes : List ℕ
  frame_bytes = text l.body ++ newline ∷ []

  pub line-fits :
      (lines overlong : ℕ) (u : Uart Q)
      → NoNewline l.body
      → length l.body < cfg.nmea_frame_max_len
      → Is cfg [] false lines overlong b u
      → Is cfg [] false
          (u32 (lines + 1))
          overlong
          (publish_frame cfg b (some frame_bytes) (length frame_bytes)).1
          (rx_burst cfg u (bytes_of l))
  line-fits lines overlong u nl fits v = rw (line-split u) (
      rx-end cfg lines overlong b l.end_ms (text l.body) (rx_burst cfg u l.body)
        (omega (arith, length-map l.body (λ (c : ℕ × ℕ). c.0)))
        (store cfg lines overlong b l.body [] u nl (omega arith) v))

  pub line-exact :
      (lines overlong : ℕ) (u : Uart Q)
      → NoNewline l.body
      → length l.body ≡ cfg.nmea_frame_max_len
      → Is cfg [] false lines overlong b u
      → Is cfg [] true lines (u32 (overlong + 1)) b (rx_burst cfg u (bytes_of l))
  line-exact lines overlong u nl exact v = rw (line-split u) (
      rx-overflow cfg lines overlong b newline l.end_ms (text l.body) (rx_burst cfg u l.body)
        (omega (arith, length-map l.body (λ (c : ℕ × ℕ). c.0)))
        (store cfg lines overlong b l.body [] u nl (omega arith) v))

  pub line-long :
      (lines overlong : ℕ) (u : Uart Q)
      → NoNewline l.body
      → cfg.nmea_frame_max_len < length l.body
      → Is cfg [] false lines overlong b u
      → Is cfg [] false lines (u32 (overlong + 1)) b (rx_burst cfg u (bytes_of l))
  line-long lines overlong u nl long v = rw (line-split u) (
      rx-resume cfg lines (u32 (overlong + 1)) b l.end_ms (rx_burst cfg u l.body)
        (overflow cfg lines overlong b l.body [] u nl (omega arith) (omega arith) v))

  pub line-skipped :
      (lines overlong : ℕ) (u : Uart Q)
      → NoNewline l.body
      → Is cfg [] true lines overlong b u
      → Is cfg [] false lines overlong b (rx_burst cfg u (bytes_of l))
  line-skipped lines overlong u nl v = rw (line-split u) (
      rx-resume cfg lines overlong b l.end_ms (rx_burst cfg u l.body)
        (drop_rest cfg lines overlong b l.body u nl v))

  line-any :
      (lines overlong : ℕ) (u : Uart Q)
      → NoNewline l.body
      → Is cfg [] false lines overlong b u
      → let fits = ltb (length l.body) cfg.nmea_frame_max_len in
        Is cfg []
          (length l.body == cfg.nmea_frame_max_len)
          (if fits then u32 (lines + 1) else lines)
          (if fits then overlong else u32 (overlong + 1))
          (if fits then (publish_frame cfg b (some frame_bytes) (length frame_bytes)).1 else b)
          (rx_burst cfg u (bytes_of l))
  line-any lines overlong u nl v = elim (dec_lt (length l.body) cfg.nmea_frame_max_len) [
    | yes h ↦ ground (arith, line-fits lines overlong u nl h v)
    | no h ↦ elim (dec_lt cfg.nmea_frame_max_len (length l.body)) [
      | yes h' ↦ ground (arith, line-long lines overlong u nl h' v)
      | no h' ↦ ground (arith, line-exact lines overlong u nl (omega arith) v)
    ]
  ]

module _ {Q : Type 0} ⦃m : Msgq Frame Q⦄ (cfg : Config) where
  -- What the thread makes of a stream of lines: the lines of the reference, published in order, and
  -- counted, as are the overlong ones.
  abbrev pub Framed : Bool → ℕ → ℕ → Bridge Q → List Line → Uart Q → Type 0
  Framed skip lines overlong b ls u =
      Is cfg [] (skip_after cfg.nmea_frame_max_len skip ls)
        (u32 (lines + length (frames_of cfg.nmea_frame_max_len skip ls)))
        (u32 (overlong + overlong_of cfg.nmea_frame_max_len skip ls))
        (publish_all cfg b (frames_of cfg.nmea_frame_max_len skip ls)) u

  -- On any stream of lines, from a thread that stands at the start of a line, the receiver publishes
  -- exactly the frames of the reference framing, in order: a line of at most `nmea_frame_max_len`
  -- bytes with its newline goes out whole, any other is dropped and counted, and the line behind
  -- one that is exactly one byte too long is dropped too, uncounted.
  pub rx_burst-Framed :
      (ls : List Line) (skip : Bool) (lines overlong : ℕ) (b : Bridge Q) (u : Uart Q)
      → All (λ l. NoNewline l.body) ls
      → lines < 2 ^ 32
      → overlong < 2 ^ 32
      → Is cfg [] skip lines overlong b u
      → Framed skip lines overlong b ls (rx_burst cfg u (stream ls))
  unfolding rx_burst publish_all frames_of overlong_of skip_after
  rx_burst-Framed [] true lines overlong b u nl hl ho v = ground arith
  rx_burst-Framed [] false lines overlong b u nl hl ho v = ground arith
  rx_burst-Framed (l ∷ ls) true lines overlong b u nl hl ho v =
      rw (rx_burst-append cfg (bytes_of l) (stream ls) u) (
        rx_burst-Framed ls false lines overlong b (rx_burst cfg u (bytes_of l)) nl.1 hl ho
          (line-skipped cfg b l lines overlong u nl.0 v))
  rx_burst-Framed (l ∷ ls) false lines overlong b u nl hl ho v =
      let fits : Bool = ltb (length l.body) cfg.nmea_frame_max_len in
      let frame : List ℕ = text l.body ++ newline ∷ [] in
      let b' : Bridge Q = if fits then (publish_frame cfg b (some frame) (length frame)).1 else b in
      let more =
        rx_burst-Framed ls (length l.body == cfg.nmea_frame_max_len)
          (if fits then u32 (lines + 1) else lines) (if fits then overlong else u32 (overlong + 1))
          b' (rx_burst cfg u (bytes_of l)) nl.1 (ground arith) (ground arith)
          (line-any cfg b l lines overlong u nl.0 v) in
      rw (rx_burst-append cfg (bytes_of l) (stream ls) u) (ground (arith, more))

-- A line whose newline is the first byte too many takes the next line down with it: whatever the
-- next one is, also one that fits, nothing of the two reaches the bridge, and one overlong line is
-- counted for both.
pub exact_line_loses_next :
    {Q : Type 0} ⦃m : Msgq Frame Q⦄ (cfg : Config) (l next : Line) (lines overlong : ℕ)
    (b : Bridge Q) (u : Uart Q)
    → NoNewline l.body
    → NoNewline next.body
    → length l.body ≡ cfg.nmea_frame_max_len
    → Is cfg [] false lines overlong b u
    → Is cfg [] false lines (u32 (overlong + 1)) b (rx_burst cfg u (bytes_of l ++ bytes_of next))
exact_line_loses_next cfg l next lines overlong b u nl nl' exact v =
    rw (rx_burst-append cfg (bytes_of l) (bytes_of next) u) (
      line-skipped cfg b next lines (u32 (overlong + 1)) (rx_burst cfg u (bytes_of l)) nl'
        (line-exact cfg b l lines overlong u nl exact v))
