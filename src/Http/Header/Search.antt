-- ===== src/Http/Header/Search.antt =====
-- Runs of the header searches of bench/src/http.c on replies.
use cross_platform_benchmark.Prelude.{codes, ◌≡◌, refl, true, false, some}
use cross_platform_benchmark.Http.Header.{content_length, says_chunked}

length_read : content_length (codes "HTTP/1.1 200 OK\r\nContent-LENGTH: 17\r\nX: y") ≡ some 17
unfolding content_length
length_read = refl

chunked_read :
    says_chunked (codes "HTTP/1.1 200 OK\r\ntransfer-encoding: gzip, Chunked\r\nX: y") ≡ true
unfolding says_chunked
chunked_read = refl

chunked_elsewhere :
    says_chunked (codes "HTTP/1.1 200\r\nTransfer-Encoding: gzip\r\nX: chunked") ≡ false
unfolding says_chunked
chunked_elsewhere = refl
