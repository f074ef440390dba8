-- ===== src/Tunnel/Proxies/Join.antt =====
-- `joinStreams` of tunnel/wsproxy.go: two goroutines copy between two connections, one in each
-- direction, and each closes both when its copying ends.
use mylittleproxy.Base.{ℕ, ◌+◌, suc, ◌≡◌, Bool, true, false}

-- Where `transfer(dst, src)` stands.
pub data Transfer : Type 0 where
  copying copied dst_closed finished : Transfer

-- `to_a` is `transfer(a, b)` and `to_b` is `transfer(b, a)`.
pub record Join : Type 0 where
  pub to_a : Transfer
  pub to_b : Transfer
  pub a_closed : Bool
  pub b_closed : Bool

abbrev pub joined : Join
joined = record { to_a = copying; to_b = copying; a_closed = false; b_closed = false }

-- What the two goroutines do without the peers. `io.Copy` waits in a read of its source most of the
-- time, and only closing that connection ends the read: a copy whose destination is closed goes on
-- to wait until its peer sends something.
pub data Own (j : Join) : Join → Type 0 where
  a_fails : j.to_a ≡ copying → j.b_closed ≡ true → Own j (record j { to_a = copied })
  a_closes_dst : j.to_a ≡ copied → Own j (record j { to_a = dst_closed; a_closed = true })
  a_closes_src : j.to_a ≡ dst_closed → Own j (record j { to_a = finished; b_closed = true })
  b_fails : j.to_b ≡ copying → j.a_closed ≡ true → Own j (record j { to_b = copied })
  b_closes_dst : j.to_b ≡ copied → Own j (record j { to_b = dst_closed; b_closed = true })
  b_closes_src : j.to_b ≡ dst_closed → Own j (record j { to_b = finished; a_closed = true })

-- A peer can end the copying at any time, by the end of its data, by an error, or by data for a
-- connection that is closed.
pub data Step (j : Join) : Join → Type 0 where
  own : {k : Join} → Own j k → Step j k
  a_ends : j.to_a ≡ copying → Step j (record j { to_a = copied })
  b_ends : j.to_b ≡ copying → Step j (record j { to_b = copied })

pub data Reach : Join → Type 0 where
  start : Reach joined
  next : {j k : Join} → Reach j → Step j k → Reach k

-- Steps of the goroutines and the peers, and how many.
pub data Runs (j : Join) : ℕ → Join → Type 0 where
  here : Runs j 0 j
  next : {n : ℕ} {k l : Join} → Runs j n k → Step k l → Runs j (suc n) l

-- What a transfer has closed.
abbrev Closed : Transfer → (dst src : Bool) → Type 0
Closed copying dst src = Unit
Closed copied dst src = Unit
Closed dst_closed dst src = dst ≡ true
Closed finished dst src = (dst ≡ true) × (src ≡ true)

record IsSound (j : Join) : Type 0 where
  by_a : Closed j.to_a j.a_closed j.b_closed
  by_b : Closed j.to_b j.b_closed j.a_closed

-- `joinStreams` has returned, with both connections closed.
pub record HasReturned (j : Join) : Type 0 where
  pub done_a : j.to_a ≡ finished
  pub done_b : j.to_b ≡ finished
  pub shut_a : j.a_closed ≡ true
  pub shut_b : j.b_closed ≡ true

abbrev left_of : Transfer → ℕ
left_of copying = 3
left_of copied = 2
left_of dst_closed = 1
left_of finished = 0

abbrev measure : Join → ℕ
measure j = left_of j.to_a + left_of j.to_b

-- Neither goroutine can go on without a peer.
abbrev pub IsStuck : Join → Type 0
IsStuck j = (k : Join) → Own j k → ⊥
