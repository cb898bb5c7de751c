-- ===== src/UartNmea/Framing.antt =====
-- From bytes to lines: what the receiving thread publishes of a stream of newline-terminated lines.
use esp_nmea_bridge_zephyr.Base.{
  ℕ, ◌+◌, ◌≤◌, ◌<◌, ◌≡◌, ◌≢◌, refl, ◌∙◌, sym, Bool, true, false, List, [], ◌∷◌, ◌++◌, append_assoc,
  append-nil, arith, map, flatten, if◌then◌else◌, ltb, ◌==◌, length, length-append, u32, All,
  dec_lt, some,
}
use esp_nmea_bridge_zephyr.Zephyr.{Msgq}
use esp_nmea_bridge_zephyr.Config.{Config}
use esp_nmea_bridge_zephyr.NmeaBridge.{Frame, Bridge, publish_frame}
use esp_nmea_bridge_zephyr.UartNmea.{Uart, newline, rx_byte, rx_burst, rx_bursts}

-- The bytes of a piece of input, without the times.
abbrev pub text : List (ℕ × ℕ) → List ℕ
text = map (λ c. c.0)

abbrev pub NoNewline : List (ℕ × ℕ) → Type 0
NoNewline = All (λ c. c.0 ≢ newline)

-- A line of input: the bytes up to the newline, and the uptime at the newline.
pub record Line : Type 0 where
  pub body : List (ℕ × ℕ)
  pub end_ms : ℕ

abbrev pub bytes_of : Line → List (ℕ × ℕ)
bytes_of l = l.body ++ (newline, l.end_ms) ∷ []

abbrev pub stream : List Line → List (ℕ × ℕ)
stream [] = []
stream (l ∷ ls) = bytes_of l ++ stream ls

-- A reference for the framing, on whole lines: a line fits with its newline or is dropped. After a
-- line whose newline is the first byte too many, `skip` drops the line that follows as well.
unfoldable pub frames_of : ℕ → Bool → List Line → List (List ℕ)
frames_of max_len skip [] = []
frames_of max_len true (l ∷ ls) = frames_of max_len false ls
frames_of max_len false (l ∷ ls) =
    let others = frames_of max_len (length l.body == max_len) ls in
    if ltb (length l.body) max_len then (text l.body ++ newline ∷ []) ∷ others else others

unfoldable pub overlong_of : ℕ → Bool → List Line → ℕ
overlong_of max_len skip [] = 0
overlong_of max_len true (l ∷ ls) = overlong_of max_len false ls
overlong_of max_len false (l ∷ ls) =
    (if ltb (length l.body) max_len then 0 else 1)
    + overlong_of max_len (length l.body == max_len) ls

unfoldable pub skip_after : ℕ → Bool → List Line → Bool
skip_after max_len skip [] = skip
skip_after max_len true (l ∷ ls) = skip_after max_len false ls
skip_after max_len false (l ∷ ls) = skip_after max_len (length l.body == max_len) ls

module _ {Q : Type 0} ⦃m : Msgq Frame Q⦄ (cfg : Config) where
  pub rx_burst-append :
      (xs ys : List (ℕ × ℕ)) (u : Uart Q)
      → rx_burst cfg u (xs ++ ys) ≡ rx_burst cfg (rx_burst cfg u xs) ys
  unfolding rx_burst
  rx_burst-append [] ys u = refl
  rx_burst-append (x ∷ xs) ys u = rx_burst-append xs ys (rx_byte cfg u x)

  -- How the bytes are spread over rounds of polling makes no difference.
  pub rx_bursts-flatten :
      (bursts : List (List (ℕ × ℕ))) (u : Uart Q)
      → rx_bursts cfg u bursts ≡ rx_burst cfg u (flatten bursts)
  unfolding rx_bursts rx_burst flatten
  rx_bursts-flatten [] u = refl
  rx_bursts-flatten (b ∷ bs) u =
      rx_bursts-flatten bs (rx_burst cfg u b) ∙ sym (rx_burst-append b (flatten bs) u)

  -- The thread's variables and the counters but `bytes_rx`, with the bridge.
  pub record Is (line : List ℕ) (dropping : Bool) (lines overlong : ℕ) (b : Bridge Q) (u : Uart Q)
      : Type 0 where
    pub line_is : u.line ≡ line
    pub dropping_is : u.dropping_overlong ≡ dropping
    pub lines_is : u.uart_stats.lines_rx ≡ lines
    pub overlong_is : u.uart_stats.overlong_lines ≡ overlong
    pub bridge_is : u.bridge ≡ b

  module _ (lines overlong : ℕ) (b : Bridge Q) where
    rx-stored :
        (ch t : ℕ) (line : List ℕ) (u : Uart Q)
        → ch ≢ newline
        → length line < cfg.nmea_frame_max_len
        → Is line false lines overlong b u
        → Is (line ++ ch ∷ []) false lines overlong b (rx_byte cfg u (ch, t))
    unfolding rx_byte
    rx-stored ch t line u ne fits v = ground arith

    pub rx-end :
        (t : ℕ) (line : List ℕ) (u : Uart Q)
        → length line < cfg.nmea_frame_max_len
        → Is line false lines overlong b u
        → Is [] false
            (u32 (lines + 1))
            overlong
            (publish_frame cfg b (some (line ++ newline ∷ [])) (length (line ++ newline ∷ []))).1
            (rx_byte cfg u (newline, t))
    unfolding rx_byte
    rx-end t line u fits v = ground arith

    pub rx-overflow :
        (ch t : ℕ) (line : List ℕ) (u : Uart Q)
        → cfg.nmea_frame_max_len ≤ length line
        → Is line false lines overlong b u
        → Is [] true lines (u32 (overlong + 1)) b (rx_byte cfg u (ch, t))
    unfolding rx_byte
    rx-overflow ch t line u full v = ground arith

    pub rx-resume :
        (t : ℕ) (u : Uart Q)
        → Is [] true lines overlong b u
        → Is [] false lines overlong b (rx_byte cfg u (newline, t))
    unfolding rx_byte
    rx-resume t u v = ground arith

  pub drop_rest :
      (lines overlong : ℕ) (b : Bridge Q) (cs : List (ℕ × ℕ)) (u : Uart Q)
      → NoNewline cs
      → Is [] true lines overlong b u
      → Is [] true lines overlong b (rx_burst cfg u cs)
  unfolding rx_burst rx_byte
  drop_rest lines overlong b [] u nl v = v
  drop_rest lines overlong b (c ∷ cs) u nl v =
      drop_rest lines overlong b cs (rx_byte cfg u c) nl.1 (ground (arith, nl.0))

  module _ (lines overlong : ℕ) (b : Bridge Q) where
    pub store :
        (cs : List (ℕ × ℕ)) (line : List ℕ) (u : Uart Q)
        → NoNewline cs
        → length line + length cs ≤ cfg.nmea_frame_max_len
        → Is line false lines overlong b u
        → Is (line ++ text cs) false lines overlong b (rx_burst cfg u cs)
    unfolding rx_burst
    store [] line u nl fits v = ground (arith, append-nil line)
    store ((ch, t) ∷ cs) line u nl fits v =
        let more =
          store cs (line ++ ch ∷ []) (rx_byte cfg u (ch, t)) nl.1
            (omega (arith, length-append line (ch ∷ [])))
            (rx-stored lines overlong b ch t line u nl.0 (omega arith) v) in
        rw append_assoc at more

    -- More bytes than the line can hold.
    pub overflow :
        (cs : List (ℕ × ℕ)) (line : List ℕ) (u : Uart Q)
        → NoNewline cs
        → length line ≤ cfg.nmea_frame_max_len
        → cfg.nmea_frame_max_len < length line + length cs
        → Is line false lines overlong b u
        → Is [] true lines (u32 (overlong + 1)) b (rx_burst cfg u cs)
    unfolding rx_burst
    overflow [] line u nl h long v = absurd (omega arith)
    overflow ((ch, t) ∷ cs) line u nl h long v =
        elim (dec_lt (length line) cfg.nmea_frame_max_len) [
          | yes room ↦
              let e : length (line ++ ch ∷ []) ≡ length line + 1 =
                omega (arith, length-append line (ch ∷ [])) in
              overflow cs (line ++ ch ∷ []) (rx_byte cfg u (ch, t)) nl.1 (omega (arith, e))
                (omega (arith, e)) (rx-stored lines overlong b ch t line u nl.0 room v)
          | no full ↦
              drop_rest lines (u32 (overlong + 1)) b cs (rx_byte cfg u (ch, t)) nl.1
                (rx-overflow lines overlong b ch t line u (omega arith) v)
        ]
