-- ===== src/Svc/AutoScaler/Fetch/Ids.antt =====
-- internal/svc/autoscaler/autoscaler.go: the ids that a batch asks for.
use waterhose.Prelude.{
  ◌+◌, ◌≤◌, List, [], ◌∷◌, ◌++◌, ◌≡◌, ◌≢◌, refl, sym, ◌∙◌, ◌⊎◌, inl, inr, ◌↔◌, map, none, some,
  bytes_cases, Bytes, arith, if◌then◌else◌, length, length-append, string_eq, Bool-cases,
  Option-cases,
}
use waterhose.Prelude.Dict.{Dict, lookup, insert, lookup-insert_self, lookup-insert_ne}
use waterhose.Structures.{PbChannel}
use waterhose.Svc.AutoScaler.{is_some}
use waterhose.Svc.AutoScaler.Fetch.{collect}

abbrev pub Occurs : Bytes → List Bytes → Type 0
Occurs a [] = ⊥
Occurs a (x ∷ xs) = (x ≡ a) ⊎ Occurs a xs

Occurs-append_one :
    (a b : Bytes) (xs : List Bytes) → Occurs a (xs ++ b ∷ []) → Occurs a xs ⊎ (b ≡ a)
Occurs-append_one a b [] (inl e) = inr e
Occurs-append_one a b [] (inr h) = absurd h
Occurs-append_one a b (x ∷ xs) (inl e) = inl (inl e)
Occurs-append_one a b (x ∷ xs) (inr h) = elim (Occurs-append_one a b xs h) [
  | inl old ↦ inl (inr old)
  | inr new ↦ inr new
]

Occurs-append_left : (a : Bytes) (xs ys : List Bytes) → Occurs a xs → Occurs a (xs ++ ys)
Occurs-append_left a [] ys h = absurd h
Occurs-append_left a (x ∷ xs) ys (inl e) = inl e
Occurs-append_left a (x ∷ xs) ys (inr h) = inr (Occurs-append_left a xs ys h)

Occurs-append_last : (a : Bytes) (xs : List Bytes) → Occurs a (xs ++ a ∷ [])
Occurs-append_last a [] = inl refl
Occurs-append_last a (x ∷ xs) = inr (Occurs-append_last a xs)

-- No id stands twice in the list.
abbrev pub Once : List Bytes → Type 0
Once [] = Unit
Once (x ∷ xs) = (Occurs x xs → ⊥) × Once xs

Once-append_one : (b : Bytes) (xs : List Bytes) → (Occurs b xs → ⊥) → Once xs → Once (xs ++ b ∷ [])
Once-append_one b [] n h = ((λ k. k), tt)
Once-append_one b (x ∷ xs) n h = (
  λ k. elim (Occurs-append_one x b xs k) [ inl old ↦ h.0 old | inr e ↦ n (inl (sym e)) ],
  Once-append_one b xs (λ k. n (inr k)) h.1,
)

-- Every id of the list is a key.
abbrev pub Keys : Dict Bytes PbChannel → List Bytes → Type 0
Keys mp ids = (id : Bytes) → Occurs id ids → (req : PbChannel) × (lookup id mp ≡ some req)

Keys-insert :
    (mp : Dict Bytes PbChannel) (ids : List Bytes) (v : PbChannel)
    → Keys mp ids
    → Keys (insert v.id v mp) ids
Keys-insert mp ids v h id k = elim (bytes_cases v.id id) [
  | inl same ↦ (v, rw (← same) (lookup-insert_self v.id v mp))
  | inr other ↦ let (req, e) = h id k in (req, lookup-insert_ne v.id id v mp other ∙ e)
]

Keys-append :
    (mp : Dict Bytes PbChannel) (ids : List Bytes) (v : PbChannel)
    → Keys mp ids
    → Keys (insert v.id v mp) (ids ++ v.id ∷ [])
Keys-append mp ids v h id k = elim (Occurs-append_one id v.id ids k) [
  | inl old ↦ Keys-insert mp ids v h id old
  | inr new ↦ (v, rw (← new) (lookup-insert_self v.id v mp))
]

abbrev next_ids : Dict Bytes PbChannel → List Bytes → PbChannel → List Bytes
next_ids mp ids v = if is_some (lookup v.id mp) then ids else ids ++ v.id ∷ []

next_ids-Keys :
    (mp : Dict Bytes PbChannel) (ids : List Bytes) (v : PbChannel)
    → Keys mp ids
    → Keys (insert v.id v mp) (next_ids mp ids v) × (length (next_ids mp ids v) ≤ length ids + 1)
next_ids-Keys mp ids v h = elim (Bool-cases (is_some (lookup v.id mp))) [
  | inl old ↦ rw old (Keys-insert mp ids v h, omega arith)
  | inr new ↦ rw new (Keys-append mp ids v h, omega (arith, length-append ids (v.id ∷ [])))
]

pub collect-Keys :
    (vs : List PbChannel) (mp : Dict Bytes PbChannel) (ids : List Bytes)
    → Keys mp ids
    → Keys (collect mp ids vs).0 (collect mp ids vs).1
      × (length (collect mp ids vs).1 ≤ length ids + length vs)
unfolding collect
collect-Keys [] mp ids h = (h, omega arith)
collect-Keys (v ∷ vs) mp ids h =
    let (next, one) = next_ids-Keys mp ids v h in
    let (k, n) = collect-Keys vs (insert v.id v mp) (next_ids mp ids v) next in (k, omega arith)

-- Every key is an id of the list, and none stands twice in it.
abbrev Lists : Dict Bytes PbChannel → List Bytes → Type 0
Lists mp ids = Keys mp ids × Once ids × ((id : Bytes) → lookup id mp ≢ none → Occurs id ids)

next_ids-Occurs :
    (mp : Dict Bytes PbChannel) (ids : List Bytes) (v : PbChannel) (id : Bytes)
    → Lists mp ids
    → Occurs id (next_ids mp ids v) ↔ (Occurs id ids ⊎ (v.id ≡ id))
next_ids-Occurs mp ids v id h = elim (Option-cases (lookup v.id mp)) [
  | inl new ↦ rw new (
    λ k. Occurs-append_one id v.id ids k,
    λ k. elim k [
      | inl old ↦ Occurs-append_left id ids (v.id ∷ []) old
      | inr e ↦ rw e (Occurs-append_last id ids)
    ],
  )
  | inr (req, old) ↦ rw old (
    λ k. inl k,
    λ k. elim k [
      | inl there ↦ there
      | inr e ↦ h.2 id (λ gone. absurd (let f : lookup id mp ≡ some req = rw e at old in cc))
    ],
  )
]

next_ids-Once :
    (mp : Dict Bytes PbChannel) (ids : List Bytes) (v : PbChannel)
    → Lists mp ids
    → Once (next_ids mp ids v)
next_ids-Once mp ids v h = elim (Option-cases (lookup v.id mp)) [
  | inl new ↦ rw new (Once-append_one v.id ids (λ k. let (req, e) = h.0 v.id k in absurd (cc)) h.1)
  | inr (req, old) ↦ rw old h.1
]

next_ids-Lists :
    (mp : Dict Bytes PbChannel) (ids : List Bytes) (v : PbChannel)
    → Lists mp ids
    → Lists (insert v.id v mp) (next_ids mp ids v)
next_ids-Lists mp ids v h = (
  (next_ids-Keys mp ids v h.0).0,
  next_ids-Once mp ids v h,
  λ id k. (next_ids-Occurs mp ids v id h).1 (elim (bytes_cases v.id id) [
    | inl same ↦ inr same
    | inr other ↦ inl (h.2 id (λ gone. k (lookup-insert_ne v.id id v mp other ∙ gone)))
  ]),
)

abbrev pub channel_id : PbChannel → Bytes
channel_id v = v.id

collect_from :
    (vs : List PbChannel) (mp : Dict Bytes PbChannel) (ids : List Bytes)
    → Lists mp ids
    → Once (collect mp ids vs).1
      × ((id : Bytes)
          → Occurs id (collect mp ids vs).1 ↔ (Occurs id ids ⊎ Occurs id (map channel_id vs)))
unfolding collect
collect_from [] mp ids h =
    (h.1, λ id. ((λ k. inl k), λ k. elim k [ inl old ↦ old | inr none_left ↦ absurd none_left ]))
collect_from (v ∷ vs) mp ids h =
    let (once, iff) =
      collect_from vs (insert v.id v mp) (next_ids mp ids v) (next_ids-Lists mp ids v h) in
    (
      once,
      λ id. (
        λ k. elim ((iff id).0 k) [
          | inl first ↦ elim ((next_ids-Occurs mp ids v id h).0 first) [
            | inl old ↦ inl old
            | inr e ↦ inr (inl e)
          ]
          | inr later ↦ inr (inr later)
        ],
        λ k. (iff id).1 (elim k [
          | inl old ↦ inl ((next_ids-Occurs mp ids v id h).1 (inl old))
          | inr (inl e) ↦ inl ((next_ids-Occurs mp ids v id h).1 (inr e))
          | inr (inr later) ↦ inr later
        ]),
      ),
    )

-- The ids that are asked for are those of the channels of the batch, each once.
abbrev pub AsksFor : List PbChannel → List Bytes → Type 0
AsksFor channels ids =
    Once ids × ((id : Bytes) → Occurs id ids ↔ Occurs id (map channel_id channels))

pub collect-AsksFor : (channels : List PbChannel) → AsksFor channels (collect [] [] channels).1
collect-AsksFor channels =
    let (once, iff) =
      collect_from channels [] []
        ((λ id h. absurd h), tt, λ id h. absurd (h (unfold lookup in refl))) in
    (
      once,
      λ id. (
        λ k. elim ((iff id).0 k) [ inl none_left ↦ absurd none_left | inr there ↦ there ],
        λ k. (iff id).1 (inr k),
      ),
    )
