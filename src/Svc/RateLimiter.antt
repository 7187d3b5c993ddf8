-- ===== src/Svc/RateLimiter.antt =====
-- internal/svc/ratelimiter/ratelimiter.go: the queue of joins that wait for the limit of the account.
-- The priority queue is a parameter. Each part of a call that holds the mutex is one step.
pub mod Drain
mod Tests
use waterhose.Prelude.{
  ℕ, zero, suc, ◌+◌, Bool, true, false, not, List, [], ◌∷◌, ◌++◌, Option, none, some, ◌==◌,
  if◌then◌else◌,
}
use waterhose.Prelude.Int.{ℤ}
use waterhose.Structures.{PbChannel}

-- `priority_queue.PriorityQueue`, whose items are numbered. `index` is `none` for -1; `pop` is only
-- asked of a queue that is not empty.
pub record PriorityQueue : Type 1 where
  pub State : Type 0
  pub empty : State
  pub len : State → ℕ
  pub push : State → ℕ → ℤ → State
  pub pop : State → ℕ × State
  pub index : State → ℕ → Option ℕ
  pub remove : State → ℕ → State

-- `VerifiedJoinChannel.Count`
abbrev pub join_count : ℕ
join_count = 1800

module _ (queue : PriorityQueue) where
  -- The queue, the number of the next item, and the items whose `done` is closed, in their order.
  pub record RateLimiter : Type 0 where
    pub pq : queue.State
    pub next_item : ℕ
    pub done : List ℕ

  -- `New`
  abbrev pub new_rate_limiter : RateLimiter
  new_rate_limiter = record { pq = queue.empty; next_item = 0; done = [] }

  unfoldable pub has_item : ℕ → List ℕ → Bool
  has_item item [] = false
  has_item item (other ∷ items) = if other == item then true else has_item item items

  -- `item.once.Do(func() { close(item.done) })`: a second close of a channel would be a panic.
  unfoldable pub close_once : ℕ → List ℕ → List ℕ
  unfolding has_item
  close_once item done = if has_item item done then done else done ++ item ∷ []

  -- The body of the loop over a tick of `Start`: `n` rounds are left.
  unfoldable pub release : ℕ → RateLimiter → RateLimiter
  unfolding close_once
  release zero r = r
  release (suc n) r =
      let (item, pq) = queue.pop r.pq in
      let rest = release n (record r { pq = pq; done = close_once item r.done }) in
      if not (queue.len r.pq == 0) then rest else r

  -- A tick of `Start`.
  abbrev pub tick : RateLimiter → RateLimiter
  tick = release join_count

  -- The first part of `RequestJoin`: the item it waits for, and the limiter.
  abbrev pub request : PbChannel → RateLimiter → ℕ × RateLimiter
  request channel r = (
    r.next_item,
    record r { pq = queue.push r.pq r.next_item channel.priority; next_item = r.next_item + 1 },
  )

  -- The last part of `RequestJoin`, once the item is done or the context has ended.
  unfoldable pub leave : ℕ → RateLimiter → RateLimiter
  unfolding close_once
  leave item r = elim (queue.index r.pq item) [
    | none ↦ record r { done = close_once item r.done }
    | some i ↦ record r { pq = queue.remove r.pq i; done = close_once item r.done }
  ]
