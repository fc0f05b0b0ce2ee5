-- ===== src/Socket/Ownership.antt =====
-- Which handle closes a descriptor, for `SocketHandle` of cpp/include/ma2a/tcp.hpp.
use ma2a.Base.{
  ℕ, zero, suc, ◌+◌, ◌≤◌, ◌<◌, ◌≡◌, refl, ap, All, true, false, List, [], ◌∷◌, Option, none, some,
  ◌==◌, if◌then◌else◌, length, Bool-cases, inl, inr, arith,
}
use ma2a.Socket.{
  Sockets, get, set, close, close_held, adopt, make_empty, move_construct, move_assign, destroy,
}

-- 1 if a handle holds the descriptor
abbrev pub holds : ℕ → Option ℕ → ℕ
holds n none = 0
holds n (some fd) = if n == fd then 1 else 0

-- How many handles hold a descriptor.
unfoldable pub owners : ℕ → List (Option ℕ) → ℕ
owners n [] = 0
owners n (h ∷ handles) = holds n h + owners n handles

-- Each open descriptor has one owner and any other none, and `close` was never called on one that
-- was not open.
pub record IsOwned (s : Sockets) : Type 0 where
  pub one_owner : (n : ℕ) → owners n s.handles ≡ (if s.is_open n then 1 else 0)
  pub no_bad_close : s.bad_closes ≡ 0

-- What the program does with handles: `socket` and `accept` give a descriptor that is not open yet,
-- and the other operations are on objects that are there.
pub data Step (s : Sockets) : Sockets → Type 0 where
  adopts : (fd : ℕ) → s.is_open fd ≡ false → Step s (adopt fd s)
  makes : Step s (make_empty s)
  moves : (i : ℕ) → i < length s.handles → Step s (move_construct i s)
  assigns : (i j : ℕ) → i < length s.handles → j < length s.handles → Step s (move_assign i j s)
  destroys : (i : ℕ) → i < length s.handles → Step s (destroy i s)

owners-set :
    (n : ℕ) (handles : List (Option ℕ)) (i : ℕ) (v : Option ℕ)
    → i < length handles
    → owners n (set handles i v) + holds n (get handles i) ≡ owners n handles + holds n v
unfolding owners
owners-set n [] i v h = absurd (omega arith)
owners-set n (x ∷ handles) zero v h = omega arith
owners-set n (x ∷ handles) (suc i) v h = omega (arith, owners-set n handles i v (omega arith))

owners-get :
    (n : ℕ) (handles : List (Option ℕ)) (i : ℕ) → holds n (get handles i) ≤ owners n handles
unfolding owners
owners-get n [] i = omega arith
owners-get n (x ∷ handles) zero = omega arith
owners-get n (x ∷ handles) (suc i) = omega (arith, owners-get n handles i)

get-set_ne :
    (handles : List (Option ℕ)) (i j : ℕ) (v : Option ℕ)
    → (i == j) ≡ false
    → get (set handles i v) j ≡ get handles j
get-set_ne [] i j v h = refl
get-set_ne (x ∷ handles) zero zero v h = cc
get-set_ne (x ∷ handles) zero (suc j) v h = refl
get-set_ne (x ∷ handles) (suc i) zero v h = refl
get-set_ne (x ∷ handles) (suc i) (suc j) v h = get-set_ne handles i j v (ground arith)

length-set :
    (handles : List (Option ℕ)) (i : ℕ) (v : Option ℕ) → length (set handles i v) ≡ length handles
length-set [] i v = refl
length-set (x ∷ handles) zero v = refl
length-set (x ∷ handles) (suc i) v = omega (arith, length-set handles i v)

-- What is closed is open, and then every open descriptor has one owner besides the handle.
owners-close_held :
    (s : Sockets) (h : Option ℕ)
    → IsOwned s
    → ((n : ℕ) → holds n h ≤ owners n s.handles)
    → ((close_held h s).bad_closes ≡ 0)
      × ((n : ℕ) → owners n s.handles ≡ (if (close_held h s).is_open n then 1 else 0) + holds n h)
unfolding close_held close
owners-close_held s none v own = (v.no_bad_close, λ n. ground (arith, v.one_owner n))
owners-close_held s (some fd) v own =
    let is_held : s.is_open fd ≡ true = ground (arith, own fd, v.one_owner fd) in
    (rw is_held (v.no_bad_close), λ n. ground (arith, is_held, own n, v.one_owner n))

close_held-handles : (h : Option ℕ) (s : Sockets) → (close_held h s).handles ≡ s.handles
unfolding close_held close
close_held-handles none s = refl
close_held-handles (some fd) s = refl

adopt-IsOwned : (s : Sockets) (fd : ℕ) → s.is_open fd ≡ false → IsOwned s → IsOwned (adopt fd s)
unfolding adopt owners
adopt-IsOwned s fd h v = record {
  one_owner = λ n. ground (arith, v.one_owner n, v.one_owner fd);
  no_bad_close = v.no_bad_close;
}

move_construct-IsOwned :
    (s : Sockets) (i : ℕ) → i < length s.handles → IsOwned s → IsOwned (move_construct i s)
unfolding move_construct owners
move_construct-IsOwned s i h v = record {
  one_owner = λ n. omega (arith, v.one_owner n, owners-set n s.handles i none h);
  no_bad_close = v.no_bad_close;
}

destroy-IsOwned : (s : Sockets) (i : ℕ) → i < length s.handles → IsOwned s → IsOwned (destroy i s)
unfolding destroy
destroy-IsOwned s i h v =
    let (closes, own) = owners-close_held s (get s.handles i) v (λ n. owners-get n s.handles i) in
    record {
      one_owner = λ n.
          rw (close_held-handles (get s.handles i) s)
            (omega (arith, own n, owners-set n s.handles i none h));
      no_bad_close = closes;
    }

move_assign-IsOwned :
    (s : Sockets) (i j : ℕ)
    → i < length s.handles
    → j < length s.handles
    → IsOwned s
    → IsOwned (move_assign i j s)
unfolding move_assign
move_assign-IsOwned s i j hi hj v = elim (Bool-cases (i == j)) [
  | inl same ↦ rw same v
  | inr apart ↦
      let (closes, own) = owners-close_held s (get s.handles i) v (λ n. owners-get n s.handles i) in
      let moved = get s.handles j in
      rw (apart, close_held-handles (get s.handles i) s)
        (record {
          one_owner = λ n. omega (
            arith,
            own n,
            owners-set n s.handles i moved hi,
            owners-set n (set s.handles i moved) j none
                (omega (arith, length-set s.handles i moved)),
            ap (holds n) (get-set_ne s.handles i j moved apart),
          );
          no_bad_close = closes;
        })
]

make_empty-IsOwned : (s : Sockets) → IsOwned s → IsOwned (make_empty s)
unfolding make_empty owners
make_empty-IsOwned s v = record {
  one_owner = λ n. omega (arith, v.one_owner n);
  no_bad_close = v.no_bad_close;
}

Step-IsOwned : {s t : Sockets} → Step s t → IsOwned s → IsOwned t
Step-IsOwned {s} (adopts fd h) v = adopt-IsOwned s fd h v
Step-IsOwned {s} makes v = make_empty-IsOwned s v
Step-IsOwned {s} (moves i h) v = move_construct-IsOwned s i h v
Step-IsOwned {s} (assigns i j hi hj) v = move_assign-IsOwned s i j hi hj v
Step-IsOwned {s} (destroys i h) v = destroy-IsOwned s i h v

-- The program's start, and what it reaches.
abbrev pub start : Sockets
start = record { handles = []; is_open = λ n. false; bad_closes = 0 }

pub data Reach : Sockets → Type 0 where
  here : Reach start
  next : {s t : Sockets} → Reach s → Step s t → Reach t

Reach-IsOwned : {s : Sockets} → Reach s → IsOwned s
Reach-IsOwned here = unfold owners in record { one_owner = λ n. refl; no_bad_close = refl }
Reach-IsOwned (next r st) = Step-IsOwned st (Reach-IsOwned r)

owners-eq_zero :
    (n : ℕ) (handles : List (Option ℕ)) → All (λ h. h ≡ none) handles → owners n handles ≡ 0
unfolding owners
owners-eq_zero n [] e = refl
owners-eq_zero n (h ∷ handles) (e, es) = rw e (omega (arith, owners-eq_zero n handles es))

-- However the program gives its handles descriptors that were just opened, moves the handles, into
-- themselves included, and destroys them, each open descriptor has one owner and any other none, no
-- descriptor is closed that is not open, hence none twice, and once all handles are empty or
-- destroyed no descriptor is open.
pub Reach-one_owner :
    {s : Sockets}
    → Reach s
    → ((n : ℕ) → owners n s.handles ≡ (if s.is_open n then 1 else 0))
      × (s.bad_closes ≡ 0)
      × (All (λ h. h ≡ none) s.handles → (n : ℕ) → s.is_open n ≡ false)
Reach-one_owner {s} r =
    let v = Reach-IsOwned r in
    (
      v.one_owner,
      v.no_bad_close,
      λ e n. ground (arith, v.one_owner n, owners-eq_zero n s.handles e),
    )
