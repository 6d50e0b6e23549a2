-- ===== src/Store.antt =====
-- The Redis / Valkey server that every component shares. The server is not part of the
-- repository, so it is a parameter: the commands that the code sends, over any type of server
-- states, with the documented behaviour that the proofs rely on. `Store/Mock.antt` is one server.
mod Defs
pub mod Mock
pub use Defs.{Redis, RedisLaws}
