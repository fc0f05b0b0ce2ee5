-- ===== src/Socket.antt =====
-- `SocketHandle` of cpp/include/ma2a/tcp.hpp: handles as objects, and the descriptors that the
-- kernel has open. An object is named by its place in the list of those made so far.
pub mod Ownership
use ma2a.Base.{
  ℕ, zero, suc, ◌+◌, ◌≡◌, ◌<◌, Bool, true, false, List, [], ◌∷◌, ◌++◌, Option, none, some, ◌==◌,
  if◌then◌else◌, length,
}

-- `fd_` of each handle, `none` for a number below zero; the open descriptors; and how often `close`
-- was called on a descriptor that is not open.
pub record Sockets : Type 0 where
  pub handles : List (Option ℕ)
  pub is_open : ℕ → Bool
  pub bad_closes : ℕ

abbrev pub get : List (Option ℕ) → ℕ → Option ℕ
get [] i = none
get (h ∷ handles) zero = h
get (h ∷ handles) (suc i) = get handles i

abbrev pub set : List (Option ℕ) → ℕ → Option ℕ → List (Option ℕ)
set [] i v = []
set (h ∷ handles) zero v = v ∷ handles
set (h ∷ handles) (suc i) v = h ∷ set handles i v

-- `::close(fd)`
unfoldable pub close : ℕ → Sockets → Sockets
close fd s = record s {
  is_open = λ n. if n == fd then false else s.is_open n;
  bad_closes = if s.is_open fd then s.bad_closes else s.bad_closes + 1;
}

-- `if (fd_ >= 0) ::close(fd_);`
unfoldable pub close_held : Option ℕ → Sockets → Sockets
close_held none s = s
close_held (some fd) s = close fd s

-- `SocketHandle(fd)` of a descriptor that the kernel has just opened
unfoldable pub adopt : ℕ → Sockets → Sockets
adopt fd s = record s {
  handles = some fd ∷ s.handles;
  is_open = λ n. if n == fd then true else s.is_open n;
}

-- `SocketHandle()`, and `SocketHandle(-1)`
unfoldable pub make_empty : Sockets → Sockets
make_empty s = record s { handles = none ∷ s.handles }

-- `SocketHandle(SocketHandle&&)` from the handle `i`
unfoldable pub move_construct : ℕ → Sockets → Sockets
move_construct i s = record s { handles = get s.handles i ∷ set s.handles i none }

-- `operator=(SocketHandle&&)` of the handle `i`, from the handle `j`
unfoldable pub move_assign : ℕ → ℕ → Sockets → Sockets
move_assign i j s =
    if i == j
    then s
    else let t = close_held (get s.handles i) s in
      record t { handles = set (set t.handles i (get t.handles j)) j none }

-- `~SocketHandle()`; what a destroyed object holds is not read again.
unfoldable pub destroy : ℕ → Sockets → Sockets
destroy i s = let t = close_held (get s.handles i) s in record t { handles = set t.handles i none }
