-- ===== src/Http/Reply/Bounds.antt =====
-- Runs of the reply reader.
use cross_platform_benchmark.Prelude.{codes, ◌≡◌, refl, true, some, pos}
use cross_platform_benchmark.Http.Outcome.{done}
use cross_platform_benchmark.Http.Header.{header_value, says_chunked}
use cross_platform_benchmark.Http.Reply.{parse_reply}
use cross_platform_benchmark.Prelude.{find_str, strtol}

redirect :
    parse_reply true (codes "HTTP/1.1 308 Gone\r\nLocation: https://h/\r\n\r\nmoved")
    ≡ some (done (record { status = pos 308; body = codes "moved"; location = codes "https://h/" }))
unfolding parse_reply strtol find_str header_value says_chunked
redirect = refl
