-- ===== src/Net/Reactor/Lifetime.antt =====
-- The constructor and the destructor of `ReactorCore`, and what they ask of the system beside `Epoll`.
use nebula_toolkit.Net.{Kernel}
use nebula_toolkit.Net.Reactor.{Handler, Epoll, Accepted, connection, Reactor, new_reactor, find}
use nebula_toolkit.Prelude.{
  ℕ, ◌≡◌, Bool, false, not, ◌&&◌, ◌||◌, Option, none, some, List, [], ◌∷◌, ◌==◌,
}
use nebula_toolkit.UnPacker.{is_set}

-- `epoll_create1` gives the descriptor of the constructor, or `none`, which it throws for.
unfoldable pub construct : Option ℕ → Option (ℕ × Reactor)
construct none = none
construct (some epoll_fd) = some (epoll_fd, new_reactor)

abbrev pub accepted_fd : Accepted → ℕ → Bool
accepted_fd (connection fd) j = j == fd
accepted_fd _ j = false

abbrev pub in_table : ℕ → List (ℕ × Handler) → Bool
in_table j t = is_set (find j t)

-- which descriptors are open, and what the system's calls do to that
pub record IsTracked (K : Kernel) (E : Epoll K) (is_open : K.State → ℕ → Bool) : Type 0 where
  pub open-receive : (s : K.State) (fd room j : ℕ) → is_open (K.receive s fd room).1 j ≡ is_open s j
  pub open-set_flags : (s : K.State) (fd j : ℕ) → is_open (E.set_flags s fd).1 j ≡ is_open s j
  pub open-add : (s : K.State) (fd j : ℕ) → is_open (E.add s fd).1 j ≡ is_open s j
  pub open-remove : (s : K.State) (fd j : ℕ) → is_open (E.remove s fd).1 j ≡ is_open s j
  pub open-close :
      (s : K.State) (fd j : ℕ) → is_open (E.close s fd) j ≡ (not (j == fd) && is_open s j)
  pub open-accept :
      (s : K.State) (fd j : ℕ)
      → is_open (E.accept s fd).1 j ≡ (accepted_fd (E.accept s fd).0 j || is_open s j)
  pub accept-fresh :
      (s : K.State) (fd conn : ℕ) → (E.accept s fd).0 ≡ connection conn → is_open s conn ≡ false

module _ (K : Kernel) (E : Epoll K) where
  abbrev pub close_all : K.State → List (ℕ × Handler) → K.State
  close_all k [] = k
  close_all k ((fd, h) ∷ t) = close_all (E.close k fd) t

  unfoldable pub destroy : K.State → ℕ → Reactor → K.State
  destroy k epoll_fd r = close_all (E.close k epoll_fd) r.protocol_handlers
