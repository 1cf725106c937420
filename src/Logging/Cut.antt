-- ===== src/Logging/Cut.antt =====
-- The line of log_writev in src/logging.c, printed piece by piece and cut once.
use bacnet_event_server.Base.{
  ◌≡◌, refl, sym, ap, ◌∙◌, Bool, true, false, ◌&&◌, [], ◌∷◌, ◌++◌, Option, none, some, Bytes, codes,
  copy_string, length, length-append, if◌then◌else◌, leb, arith, append_assoc, append-nil,
  Bool-cases, inl, inr,
}
use bacnet_event_server.Base.Buffer.{Cursor, print_at, cursor_at, print-cursor}
use bacnet_event_server.Base.Scan.{◌>>=◌}
use bacnet_event_server.Logging.Line.{
  LogConfig, LogCall, print_if, level_piece, component_piece, location_piece, has_component,
  text_line,
}

-- The whole line in one snprintf, if the prefix stays in the buffer.
unfoldable pub finish : Bytes → Bytes → Option Bytes
finish prefix message =
    if leb (length prefix) 4096 then some (copy_string 4096 (prefix ++ message)) else none

finish_over :
    (t rest message : Bytes) → leb (length t) 4096 ≡ false → finish (t ++ rest) message ≡ none
unfolding finish
finish_over t rest message over = ground (arith, length-append t rest)

print-step :
    (wanted : Bool) (piece t rest message : Bytes) (next : Cursor → Option Bytes)
    → ((u : Bytes) → next (cursor_at 4096 u) ≡ finish (u ++ rest) message)
    → (print_if wanted piece (cursor_at 4096 t) >>= next)
      ≡ finish (t ++ ((if wanted then piece else []) ++ rest)) message
unfolding print_if
print-step true piece t rest message next h =
    rw (print-cursor 4096 piece t) (elim (Bool-cases (leb (length t) 4096)) [
      | inl fits ↦ rw fits (h (t ++ piece) ∙ ap (λ r. finish r message) (append_assoc t piece rest))
      | inr over ↦ rw over (sym (finish_over t (piece ++ rest) message over))
    ])
print-step false piece t rest message next h = h t

print-message :
    (message t : Bytes)
    → (do done ← print_at 4096 message (cursor_at 4096 t); some done.buffer) ≡ finish t message
unfolding finish cursor_at
print-message message t =
    rw (print-cursor 4096 message t) (elim (Bool-cases (leb (length t) 4096)) [
      | inl fits ↦ rw fits refl
      | inr over ↦ rw over refl
    ])

print-last :
    (wanted : Bool) (piece t message : Bytes)
    → (do
      placed ← print_if wanted piece (cursor_at 4096 t)
      done ← print_at 4096 message placed
      some done.buffer)
      ≡ finish (t ++ (if wanted then piece else [])) message
print-last wanted piece t message =
    print-step wanted piece t [] message
      (λ placed. do done ← print_at 4096 message placed; some done.buffer)
      (λ u. print-message message u ∙ ap (λ r. finish r message) (sym (append-nil u)))
    ∙ ap (λ r. finish (t ++ r) message) (append-nil (if wanted then piece else []))

-- What stands before the message.
unfoldable pub prefix_text : LogConfig → Bytes → LogCall → Bytes
unfolding level_piece component_piece location_piece
prefix_text config time call =
    (if config.include_timestamp then time ++ codes " " else [])
    ++ ((if config.include_level then level_piece config call.level else [])
        ++ ((if config.include_component && has_component call.component
              then component_piece call.component
              else [])
            ++ (if config.include_location then location_piece call else [])))

-- The text line, printed in pieces at offsets into the buffer, is the prefix, the message and a newline cut once to the 4095 bytes of the buffer, if the prefix is at most 4096 bytes long; if it is longer, a piece is printed outside the buffer.
pub text_line-finish :
    (config : LogConfig) (time : Bytes) (call : LogCall) (message : Bytes)
    → text_line config time call message
      ≡ finish (prefix_text config time call) (message ++ 10 ∷ [])
unfolding text_line prefix_text finish cursor_at
text_line-finish config time call message =
    print-step config.include_timestamp (time ++ codes " ") []
      (level_part ++ (component_part ++ location_part)) (message ++ 10 ∷ [])
      (λ stamped. do
        levelled ← print_if config.include_level (level_piece config call.level) stamped
        named ← print_if named_in (component_piece call.component) levelled
        placed ← print_if config.include_location (location_piece call) named
        done ← print_at 4096 (message ++ 10 ∷ []) placed
        some done.buffer)
      (λ t.
        print-step config.include_level (level_piece config call.level) t
          (component_part ++ location_part) (message ++ 10 ∷ [])
          (λ levelled. do
            named ← print_if named_in (component_piece call.component) levelled
            placed ← print_if config.include_location (location_piece call) named
            done ← print_at 4096 (message ++ 10 ∷ []) placed
            some done.buffer)
          (λ u.
            print-step named_in (component_piece call.component) u location_part
              (message ++ 10 ∷ [])
              (λ named. do
                placed ← print_if config.include_location (location_piece call) named
                done ← print_at 4096 (message ++ 10 ∷ []) placed
                some done.buffer)
              (λ v.
                print-last config.include_location (location_piece call) v (message ++ 10 ∷ []))))
  where
    named_in : Bool
    named_in = config.include_component && has_component call.component

    level_part : Bytes
    level_part = if config.include_level then level_piece config call.level else []

    component_part : Bytes
    component_part = if named_in then component_piece call.component else []

    location_part : Bytes
    location_part = if config.include_location then location_piece call else []
