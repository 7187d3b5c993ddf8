-- ===== src/Svc/RateLimiter/Drain.antt =====
-- internal/svc/ratelimiter/ratelimiter.go: a tick lets at most 1800 joins go, and enough ticks all.
use Prim.Native.Nat.{◌*◌}
use waterhose.Prelude.{
  ℕ, zero, suc, ◌+◌, ◌-◌, ◌≤◌, true, false, List, [], ◌∷◌, ◌++◌, ◌≡◌, ◌≢◌, refl, none, some, arith,
  ◌==◌, if◌then◌else◌, length, length-append, inl, inr, Bool-cases, Option-cases,
}
use waterhose.Svc.RateLimiter.{
  PriorityQueue, RateLimiter, has_item, close_once, release, tick, leave,
}

-- A queue: an item that is popped is one less, and an item that is removed is not in it.
pub record IsQueue (queue : PriorityQueue) : Type 0 where
  pub len-pop : (s : queue.State) → queue.len s ≢ 0 → queue.len (queue.pop s).1 + 1 ≡ queue.len s
  pub index-remove :
      (s : queue.State) (item i : ℕ)
      → queue.index s item ≡ some i
      → queue.index (queue.remove s i) item ≡ none

module _ (queue : PriorityQueue) where
  -- No item is in the list twice.
  unfoldable pub Distinct : List ℕ → Type 0
  Distinct [] = Unit
  Distinct (item ∷ items) = (has_item queue item items ≡ false) × Distinct items

  has_item-append :
      (item last : ℕ) (items : List ℕ)
      → has_item queue item (items ++ last ∷ [])
        ≡ (if has_item queue item items then true else if last == item then true else false)
  unfolding has_item
  has_item-append item last [] = refl
  has_item-append item last (other ∷ items) = ground (arith, has_item-append item last items)

  append-Distinct :
      (item : ℕ) (items : List ℕ)
      → has_item queue item items ≡ false
      → Distinct items
      → Distinct (items ++ item ∷ [])
  unfolding has_item Distinct
  append-Distinct item [] h d = (refl, tt)
  append-Distinct item (other ∷ items) h (fresh, d) = (
    ground (arith, has_item-append other item items),
    append-Distinct item items (ground arith) d,
  )

  close_once_lem :
      (item : ℕ) (done : List ℕ)
      → Distinct done
      → Distinct (close_once queue item done)
        × (has_item queue item (close_once queue item done) ≡ true)
        × (length (close_once queue item done) ≤ length done + 1)
  unfolding close_once
  close_once_lem item done d = elim (Bool-cases (has_item queue item done)) [
    | inl closed ↦ rw (close_once, closed) (d, closed, omega arith)
    | inr open' ↦
        rw (close_once, open')
          (
            append-Distinct item done open' d,
            ground (arith, has_item-append item item done),
            omega (arith, length-append done (item ∷ [])),
          )
  ]

  -- What a number of rounds of a tick leaves.
  pub record Released (n : ℕ) (r r' : RateLimiter queue) : Type 0 where
    pub fewer : queue.len r'.pq ≡ queue.len r.pq - n
    pub bounded : length r'.done ≤ length r.done + n
    pub distinct : Distinct r'.done

module _ (queue : PriorityQueue) (q : IsQueue queue) where
  release-Released :
      (n : ℕ) (r : RateLimiter queue)
      → Distinct queue r.done
      → Released queue n r (release queue n r)
  unfolding release
  release-Released zero r d = record { fewer = omega arith; bounded = omega arith; distinct = d }
  release-Released (suc n) r d = elim (Bool-cases (queue.len r.pq == 0)) [
    | inl empty ↦
        rw (release, empty) (record { fewer = ground arith; bounded = omega arith; distinct = d })
    | inr left ↦
        rw (release, left)
          (let (item, pq) = queue.pop r.pq in
            let (d', _, grows) = close_once_lem queue item r.done d in
            let popped = q.len-pop r.pq (λ none_left. ground (arith, left, none_left)) in
            let s =
              release-Released n (record r { pq = pq; done = close_once queue item r.done }) d' in
            record {
              fewer = omega (arith, s.fewer, popped);
              bounded = omega (arith, s.bounded, grows);
              distinct = s.distinct;
            })
  ]

  -- A tick takes 1800 items out of the queue, or all if there are less, closes the channels of at most
  -- 1800, and closes none for a second time.
  pub tick-Released :
      (r : RateLimiter queue) → Distinct queue r.done → Released queue 1800 r (tick queue r)
  tick-Released r d = release-Released 1800 r d

  unfoldable pub ticks : ℕ → RateLimiter queue → RateLimiter queue
  ticks zero r = r
  ticks (suc n) r = ticks n (tick queue r)

  -- Where no channel was closed twice before, a queue with at most 1800 items for each of `n` ticks is
  -- empty behind them, if no request comes in between.
  pub ticks_drain :
      (n : ℕ) (r : RateLimiter queue)
      → Distinct queue r.done
      → queue.len r.pq ≤ 1800 * n
      → queue.len (ticks n r).pq ≡ 0
  unfolding ticks
  ticks_drain zero r d h = omega arith
  ticks_drain (suc n) r d h =
      let t = tick-Released r d in
      ticks_drain n (tick queue r) t.distinct (omega (arith, t.fewer, h))

  -- A request that leaves, since its item is done or its context has ended, is not in the queue, its
  -- channel is closed, and no channel is closed twice.
  pub leave_lem :
      (item : ℕ) (r : RateLimiter queue)
      → Distinct queue r.done
      → (queue.index (leave queue item r).pq item ≡ none)
        × (has_item queue item (leave queue item r).done ≡ true)
        × Distinct queue (leave queue item r).done
  unfolding leave
  leave_lem item r d = elim (Option-cases (queue.index r.pq item)) [
    | inl out ↦
        let (d', closed, _) = close_once_lem queue item r.done d in
        rw (leave, out) (out, closed, d')
    | inr (i, e) ↦
        let (d', closed, _) = close_once_lem queue item r.done d in
        rw (leave, e) (q.index-remove r.pq item i e, closed, d')
  ]
