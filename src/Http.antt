-- ===== src/Http.antt =====
-- bench/src/http.c: the POST of a result to a hub. `Outcome` is the return value of its functions,
-- with the text that `fail` leaves in `http_reply_t.error` where that is -1.
pub mod Outcome
pub mod Url
pub mod Header
pub mod Chunks
pub mod Shell
pub mod File
pub mod Socket
pub mod Reply
pub mod Post
