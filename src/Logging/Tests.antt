-- ===== src/Logging/Tests.antt =====
-- The theorems on logging at concrete texts.
use bacnet_event_server.Base.{◌≡◌, refl, [], ◌∷◌, some, codes, inl, true, ◌<◌, ◌++◌, arith, length}
use bacnet_event_server.Logging.Escape.{
  escape_json_string, escape_char, strip_ansi, strip_loop, get_filename, filename_from,
}
use bacnet_event_server.Logging.Escaping.{closing, read_string, escape-read}
use bacnet_event_server.Logging.Line.{LogConfig, default_config, text}
use bacnet_event_server.Logging.Sink.{clean_line}
use bacnet_event_server.Logging.Clean.{clean_line-strip_ansi}

-- A buffer of 5 bytes takes a quote and half a word.
escape-read_example :
    read_string (escape_json_string (b'a' ∷ 34 ∷ b'b' ∷ b'c' ∷ []) 5 ++ closing (codes ", "))
    ≡ some (b'a' ∷ 34 ∷ [], codes ", ")
unfolding escape_char
escape-read_example =
    (escape-read (b'a' ∷ 34 ∷ b'b' ∷ b'c' ∷ []) (codes ", ") 5 (omega arith)
      (inl (omega arith), (inl (omega arith), (inl (omega arith), (inl (omega arith), tt))))).1

abbrev coloured : LogConfig
coloured = record default_config { format = text; colorize = true }

clean_line-strip_ansi_example : length (clean_line coloured (27 ∷ codes "[31mred")) < 4096
clean_line-strip_ansi_example = (clean_line-strip_ansi coloured (27 ∷ codes "[31mred") refl refl).1

red : strip_ansi (27 ∷ codes "[31mred") ≡ codes "red"
unfolding strip_ansi strip_loop
red = refl

main_c : get_filename (codes "src/main.c") ≡ codes "main.c"
unfolding get_filename filename_from
main_c = refl
