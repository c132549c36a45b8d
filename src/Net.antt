-- ===== src/Net.antt =====
-- include/net/transport/enums.hpp, and what include/net asks of the operating system. The system is a
-- parameter: a state, the calls that change it, and the laws of those calls that the proofs use.
pub mod Tcp
pub mod Udp
pub mod Streams
pub mod Frame
pub mod Reactor
pub mod Sockets
pub mod Memory
mod Samples
mod Tests
use nebula_toolkit.Prelude.{ℕ, ◌≤◌, ◌<◌, ◌≡◌, Bool, List, [], ◌∷◌, ◌++◌, Bytes, length}

-- `EventFlags`, a set of bits
pub record EventFlags : Type 0 where
  pub readable : Bool
  pub writable : Bool
  pub error : Bool
  pub hang_up : Bool

pub record Event : Type 0 where
  pub fd : ℕ
  pub event_flags : EventFlags

-- what `read` and `recvfrom` return: bytes, -1 with EAGAIN or EWOULDBLOCK, or -1 with another error
pub data Received : Type 0 where
  got : Bytes → Received
  would_block failed : Received

abbrev pub bytes_of : Received → Bytes
bytes_of (got bs) = bs
bytes_of would_block = []
bytes_of failed = []

-- `receive s fd room` is `read` or `recvfrom` on a descriptor that does not block; `taken s fd` is all
-- that it has returned so far for the descriptor.
pub record Kernel : Type 1 where
  pub State : Type 0
  pub receive : State → ℕ → ℕ → Received × State
  pub taken : State → ℕ → Bytes

pub record IsLawful (K : Kernel) : Type 0 where
  pub receive-fits : (s : K.State) (fd room : ℕ) → length (bytes_of (K.receive s fd room).0) ≤ room
  pub taken-receive :
      (s : K.State) (fd room : ℕ)
      → K.taken (K.receive s fd room).1 fd ≡ K.taken s fd ++ bytes_of (K.receive s fd room).0

-- Nothing arrives while the bytes that wait for the descriptor are read: a read that returns bytes
-- leaves fewer of them.
pub record IsQuiet (K : Kernel) (fd : ℕ) (waiting : K.State → ℕ) : Type 0 where
  pub waiting-receive :
      (s : K.State) (room : ℕ)
      → 0 < length (bytes_of (K.receive s fd room).0)
      → waiting (K.receive s fd room).1 < waiting s
