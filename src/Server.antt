-- ===== src/Server.antt =====
-- server/cmd: the commands of the server, which take their arguments apart, call the engine and wrap
-- its result. `wrap` is `Response::ResponseWrap`, which prints JSON by cJSON, and `describe` is the
-- text of a status that is not kOk; both are parameters.
pub mod Reply
pub mod Hashes
pub mod Sets
pub mod Lists
pub mod Strings
