-- ===== src/Configure/Slices.antt =====
-- Go slices of strings that start at the head of their array, as those of `BindEnvs` do: an append
-- writes into the array where it has room behind the slice, and makes a new array where it has none.
use waterhose.Prelude.{
  ℕ, suc, ◌≤◌, ◌<◌, ◌≡◌, ◌≢◌, ◌⊎◌, inl, inr, refl, ap, Option, none, some, List, [], ◌∷◌, ◌++◌,
  length, get_elem?, set, take, Bytes, ltb, if◌then◌else◌, arith, zero, ◌∙◌, Bool-cases, nat_cases,
  sym, length-set, length-append, get_elem?-set_self, get_elem?-set_ne, get_elem?-append_lt,
  get_elem?-append_last,
}

pub record Slice : Type 0 where
  pub array : ℕ
  pub len : ℕ

-- The arrays, by their address. A slice has the capacity of its array.
abbrev pub Heap : Type 0
Heap = List (List Bytes)

abbrev from_option : Option (List Bytes) → List Bytes
from_option none = []
from_option (some strings) = strings

abbrev pub array_at : Heap → ℕ → List Bytes
array_at h i = from_option (get_elem? h i)

-- A nil slice, and the array without room that stands for its missing one.
abbrev pub nil_slice : Slice
nil_slice = record { array = 0; len = 0 }

abbrev pub nil_heap : Heap
nil_heap = [] ∷ []

-- What a slice holds.
abbrev pub read : Heap → Slice → List Bytes
read h s = take s.len (array_at h s.array)

-- `append(s, x)`: `spare` is what a new array has behind the slice.
unfoldable pub append : (Slice → List Bytes) → Slice → Bytes → Heap → Slice × Heap
append spare s x h =
    if ltb s.len (length (array_at h s.array))
    then (record s { len = suc s.len }, set h s.array (set (array_at h s.array) s.len x))
    else (record { array = length h; len = suc s.len }, h ++ (read h s ++ x ∷ spare s) ∷ [])

-- A slice of an array that there is, within its capacity.
abbrev pub IsValid : Heap → Slice → Type 0
IsValid h s = (s.array < length h) × (s.len ≤ length (array_at h s.array))

-- Between two heaps nothing is written in front of `n` in the array `a`, nor into another old array.
abbrev pub Frame : ℕ → ℕ → Heap → Heap → Type 0
Frame a n h k =
    (length h ≤ length k)
    × ((s : Slice)
        → IsValid h s
        → (s.array ≢ a) ⊎ (s.len ≤ n)
        → IsValid k s × (read k s ≡ read h s))

pub Frame-refl : (a n : ℕ) (h : Heap) → Frame a n h h
Frame-refl a n h = (omega arith, λ s v o. (v, refl))

-- A frame, followed by one of a slice that starts with it or of one in a new array.
pub Frame-trans :
    (a n : ℕ) (t : Slice) (h k m : Heap)
    → Frame a n h k
    → ((t.array ≡ a) × (n ≤ t.len)) ⊎ (length h ≤ t.array)
    → Frame t.array t.len k m
    → Frame a n h m
Frame-trans a n t h k m f o g = (
  omega (arith, f.0, g.0),
  λ s v w.
      let first = f.1 s v w in
      let second = g.1 s first.0 (ground arith) in (second.0, second.1 ∙ first.1),
)

take-set : (xs : List Bytes) (n i : ℕ) (x : Bytes) → n ≤ i → take n (set xs i x) ≡ take n xs
take-set [] n i x h = refl
take-set (y ∷ xs) zero i x h = refl
take-set (y ∷ xs) (suc n) zero x h = absurd (omega arith)
take-set (y ∷ xs) (suc n) (suc i) x h = ap (◌∷◌ y) (take-set xs n i x (omega arith))

take-set_last :
    (xs : List Bytes) (i : ℕ) (x : Bytes)
    → i < length xs
    → take (suc i) (set xs i x) ≡ take i xs ++ x ∷ []
take-set_last [] i x h = absurd (omega arith)
take-set_last (y ∷ xs) zero x h = refl
take-set_last (y ∷ xs) (suc i) x h = ap (◌∷◌ y) (take-set_last xs i x (omega arith))

array_at-set_self :
    (h : Heap) (i : ℕ) (xs : List Bytes) → i < length h → array_at (set h i xs) i ≡ xs
array_at-set_self h i xs l = ap from_option (get_elem?-set_self h i xs l)

array_at-set_ne :
    (h : Heap) (i j : ℕ) (xs : List Bytes) → i ≢ j → array_at (set h i xs) j ≡ array_at h j
array_at-set_ne h i j xs l = ap from_option (get_elem?-set_ne h xs l)

array_at-append_lt : (h k : Heap) (i : ℕ) → i < length h → array_at (h ++ k) i ≡ array_at h i
array_at-append_lt h k i l = ap from_option (get_elem?-append_lt h k i l)

array_at-append_last : (h : Heap) (xs : List Bytes) → array_at (h ++ xs ∷ []) (length h) ≡ xs
array_at-append_last h xs = ap from_option (get_elem?-append_last h xs)

length-take : (n : ℕ) (xs : List Bytes) → n ≤ length xs → length (take n xs) ≡ n
length-take zero xs h = refl
length-take (suc n) [] h = absurd (omega arith)
length-take (suc n) (x ∷ xs) h = ap suc (length-take n xs (omega arith))

take-append_one :
    (n : ℕ) (xs : List Bytes) (x : Bytes) (ys : List Bytes)
    → n ≡ length xs
    → take (suc n) (xs ++ x ∷ ys) ≡ xs ++ x ∷ []
take-append_one n [] x ys h = rw h refl
take-append_one zero (z ∷ xs) x ys h = absurd (omega arith)
take-append_one (suc n) (z ∷ xs) x ys h = ap (◌∷◌ z) (take-append_one n xs x ys (omega arith))

within :
    (h : Heap) (s t : Slice)
    → s.array ≡ t.array
    → t.len ≤ length (array_at h t.array)
    → t.len ≤ length (array_at h s.array)
within h s t e l = rw e l

-- A write behind a slice.
write_Frame :
    (s : Slice) (x : Bytes) (h : Heap)
    → Frame s.array s.len h (set h s.array (set (array_at h s.array) s.len x))
write_Frame s x h = (
  omega (arith, length-set h s.array (set (array_at h s.array) s.len x)),
  λ t v o. elim (nat_cases s.array t.array) [
    | inl e ↦ (
      (
        omega (arith, v.0, length-set h s.array (set (array_at h s.array) s.len x)),
        rw
            (
              sym e,
              array_at-set_self h s.array (set (array_at h s.array) s.len x)
                  (omega (arith, v.0, e)),
            )
            (omega (arith, within h s t e v.1, length-set (array_at h s.array) s.len x)),
      ),
      rw
          (
            sym e,
            array_at-set_self h s.array (set (array_at h s.array) s.len x) (omega (arith, v.0, e)),
          )
          (take-set (array_at h s.array) t.len s.len x (ground arith)),
    )
    | inr e ↦
        rw
          (
            length-set h s.array (set (array_at h s.array) s.len x),
            array_at-set_ne h s.array t.array (set (array_at h s.array) s.len x) e,
          )
          (v, refl)
  ],
)

-- A new array.
new_Frame : (s : Slice) (h : Heap) (xs : List Bytes) → Frame s.array s.len h (h ++ xs ∷ [])
new_Frame s h xs = (
  omega (arith, length-append h (xs ∷ [])),
  λ t v o.
      rw (length-append h (xs ∷ []), array_at-append_lt h (xs ∷ []) t.array v.0)
        ((omega arith, v.1), refl),
)

-- An append gives a slice that holds one string more, and writes behind the slice or into a new array.
pub append_lem :
    (spare : Slice → List Bytes) (s : Slice) (x : Bytes) (h : Heap)
    → IsValid h s
    → let a : Slice × Heap = append spare s x h in
      IsValid a.1 a.0
      × (read a.1 a.0 ≡ read h s ++ x ∷ [])
      × Frame s.array s.len h a.1
      × (((a.0.array ≡ s.array) × (s.len ≤ a.0.len)) ⊎ (length h ≤ a.0.array))
unfolding append
append_lem spare s x h v = elim (Bool-cases (ltb s.len (length (array_at h s.array)))) [
  | inl l ↦
      let room : s.len < length (array_at h s.array) = ground arith in
      rw l (
        (
          omega (arith, v.0, length-set h s.array (set (array_at h s.array) s.len x)),
          rw (array_at-set_self h s.array (set (array_at h s.array) s.len x) v.0)
              (omega (arith, length-set (array_at h s.array) s.len x, room)),
        ),
        rw (array_at-set_self h s.array (set (array_at h s.array) s.len x) v.0)
            (take-set_last (array_at h s.array) s.len x room),
        write_Frame s x h,
        inl (refl, omega arith),
      )
  | inr g ↦ rw g (
    (
      omega (arith, length-append h ((read h s ++ x ∷ spare s) ∷ [])),
      rw (array_at-append_last h (read h s ++ x ∷ spare s)) (
          omega (
            arith,
            length-append (read h s) (x ∷ spare s),
            length-take s.len (array_at h s.array) v.1,
          )),
    ),
    rw (array_at-append_last h (read h s ++ x ∷ spare s)) (
        take-append_one s.len (read h s) x (spare s)
          (sym (length-take s.len (array_at h s.array) v.1))),
    new_Frame s h _,
    inr (omega arith),
  )
]
