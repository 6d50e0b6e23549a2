-- ===== src/Promoter/Monad.antt =====
-- State and exceptions: what was written stays written when an exception leaves.
use ha_cluster_state_sync.Prelude.{List, [], ◌∷◌}
use ha_cluster_state_sync.Promoter.World.{
  World, Result, ok, err, Failure, Link, up, refused, reply_lost,
}

abbrev pub M : Type 0 → Type 0 → Type 0
M Server A = World Server → Result A × World Server

module _ {Server : Type 0} where
  abbrev pub pure : {A : Type 0} → A → M Server A
  pure a w = (ok a, w)

  abbrev pub raise : {A : Type 0} → Failure → M Server A
  raise e w = (err e, w)

  abbrev pub gets : {A : Type 0} → (World Server → A) → M Server A
  gets f w = (ok (f w), w)

  abbrev pub modify : (World Server → World Server) → M Server (Unit {0})
  modify f w = (ok tt, f w)

  abbrev pub after :
      {A B : Type 0} → (A → M Server B) → Result A × World Server → Result B × World Server
  after f (ok a, w) = f a w
  after f (err e, w) = (err e, w)

  infixl 5 ◌>>=◌ ◌>>◌
  abbrev pub ◌>>=◌ : {A B : Type 0} → M Server A → (A → M Server B) → M Server B
  ◌>>=◌ m f w = after f (m w)

  abbrev pub ◌>>◌ : {B : Type 0} → M Server (Unit {0}) → M Server B → M Server B
  m >> k = m >>= λ _. k

  abbrev pub caught : {A : Type 0} → A → Result A × World Server → Result A × World Server
  caught a (ok b, w) = (ok b, w)
  caught a (err e, w) = (ok a, w)

  -- `try: m  except Exception: a`
  abbrev pub or_else : {A : Type 0} → M Server A → A → M Server A
  or_else m a w = caught a (m w)

  -- One command, as its link has it.
  abbrev pub sent : {A : Type 0} → Link → (Server → A × Server) → M Server A
  sent up f w = let (a, s) = f w.server in (ok a, record w { server = s })
  sent refused f w = (err Failure.valkey_error, w)
  sent reply_lost f w = (err Failure.valkey_error, record w { server = (f w.server).1 })

  abbrev pub call_on : {A : Type 0} → List Link → (Server → A × Server) → M Server A
  call_on [] f w = sent up f w
  call_on (l ∷ ls) f w = sent l f (record w { links = ls })

  abbrev pub call : {A : Type 0} → (Server → A × Server) → M Server A
  call f w = call_on w.links f w
