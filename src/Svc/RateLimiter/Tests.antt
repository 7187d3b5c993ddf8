-- ===== src/Svc/RateLimiter/Tests.antt =====
-- The limiter of joins over a queue that is a list.
use waterhose.Prelude.{
  ℕ, ◌+◌, List, [], ◌∷◌, ◌++◌, ◌≡◌, ◌≢◌, refl, Option, none, some, arith, length, ◌==◌,
  if◌then◌else◌,
}
use waterhose.Svc.RateLimiter.{PriorityQueue, RateLimiter, has_item}
use waterhose.Svc.RateLimiter.Drain.{IsQueue, Distinct, ticks, ticks_drain}

-- An item's index is the item itself: a list has no other number for it that a removal keeps.
abbrev index : List ℕ → ℕ → Option ℕ
index [] item = none
index (other ∷ items) item = if other == item then some item else index items item

abbrev without : ℕ → List ℕ → List ℕ
without i [] = []
without i (other ∷ items) = if other == i then without i items else other ∷ without i items

abbrev pop : List ℕ → ℕ × List ℕ
pop [] = (0, [])
pop (item ∷ items) = (item, items)

abbrev queue : PriorityQueue
queue = record {
  State = List ℕ;
  empty = [];
  len = length;
  push = λ s item priority. s ++ item ∷ [];
  pop = pop;
  index = index;
  remove = λ s i. without i s;
}

index-some : (s : List ℕ) (item i : ℕ) → index s item ≡ some i → i ≡ item
index-some [] item i e = absurd (cc)
index-some (other ∷ s) item i e = ground (arith, index-some s item i)

index-without : (s : List ℕ) (item : ℕ) → index (without item s) item ≡ none
index-without [] item = refl
index-without (other ∷ s) item = ground (arith, index-without s item)

pop-length : (s : List ℕ) → length s ≢ 0 → length (pop s).1 + 1 ≡ length s
pop-length [] h = absurd (h refl)
pop-length (item ∷ s) h = omega arith

queue-IsQueue : IsQueue queue
queue-IsQueue = record {
  len-pop = pop-length;
  index-remove = λ s item i e. rw (index-some s item i e) (index-without s item);
}

abbrev two : RateLimiter queue
two = record { pq = 4 ∷ 5 ∷ []; next_item = 6; done = 3 ∷ [] }

two-Distinct : Distinct queue two.done
unfolding has_item Distinct
two-Distinct = (refl, tt)

ticks_drain_example : queue.len (ticks queue queue-IsQueue 1 two).pq ≡ 0
ticks_drain_example = ticks_drain queue queue-IsQueue 1 two two-Distinct (omega arith)
