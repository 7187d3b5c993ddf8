-- ===== src/Irc/Tags/RoundTrip.antt =====
-- internal/modes/slave/irc/irc.go: `ParseTags` reads back a printed tag list.
use mathlib.Core.List.{append-nil, append_assoc}
use waterhose.Prelude.{
  ℕ, suc, ◌+◌, Bool, true, false, ◌||◌, not, List, [], ◌∷◌, ◌++◌, ◌≡◌, ◌≢◌, refl, ap, ◌∙◌, some,
  arith, Bytes, ◌==◌, length, length-append, All, ok, string_eq,
}
use waterhose.Prelude.Dict.{insert}
use waterhose.Irc.Message.{IrcTags}
use waterhose.Irc.Tags.{Scan, scan_round, scan, parse_tags}

-- A byte that is no delimiter.
abbrev pub is_plain : ℕ → Bool
is_plain c = not (c == b'=' || c == b';' || c == b' ')

abbrev pub IsPlain : Bytes → Type 0
IsPlain = All (λ c. is_plain c ≡ true)

-- A tag that the wire format can express.
pub record IsTag (t : Bytes × Bytes) : Type 0 where
  pub key_plain : IsPlain t.0
  pub key_ne_nil : t.0 ≢ []
  pub value_plain : IsPlain t.1

-- `k=v;k=v ` with the first tag given apart.
abbrev pub print_tags : Bytes × Bytes → List (Bytes × Bytes) → Bytes → Bytes
print_tags (k, v) [] rest = k ++ (b'=' ∷ (v ++ (b' ' ∷ rest)))
print_tags (k, v) (t ∷ ts) rest = k ++ (b'=' ∷ (v ++ (b';' ∷ print_tags t ts rest)))

abbrev pub insert_tags : Bytes × Bytes → List (Bytes × Bytes) → IrcTags → IrcTags
insert_tags (k, v) [] tags = insert k v tags
insert_tags (k, v) (t ∷ ts) tags = insert_tags t ts (insert k v tags)

scan_plain :
    (w : Bytes) (st : Scan) (rest : Bytes)
    → st.skip ≡ false
    → IsPlain w
    → scan st (w ++ rest) ≡ scan (record st { i = st.i + length w; seg = st.seg ++ w }) rest
scan_plain [] st rest e h = rw append-nil (ap (λ n. scan (record st { i = n }) rest) (omega arith))
scan_plain (c ∷ cs) st rest e h =
    one
    ∙ scan_plain cs st' rest e h.1
    ∙ rw append_assoc
        (ap (λ n. scan (record st { i = n; seg = st.seg ++ c ∷ cs }) rest) (omega arith))
  where
    st' : Scan
    st' = record st { i = st.i + 1; seg = st.seg ++ c ∷ [] }

    one : scan st (c ∷ (cs ++ rest)) ≡ scan st' (cs ++ rest)
    one = unfold scan scan_round in ground arith

-- From the start of a tag, with its first byte looked at or not, the loop reads the key.
scan_key :
    (k : Bytes) (st : Scan) (rest : Bytes)
    → st.seg ≡ []
    → st.key ≡ []
    → IsPlain k
    → k ≢ []
    → scan st (k ++ (b'=' ∷ rest))
      ≡ scan
          (record { i = st.i + length k + 1; seg = []; key = k; tags = st.tags; skip = false })
          rest
scan_key [] st rest s e h ne = absurd (ne refl)
scan_key (c ∷ cs) st rest s e h ne = first ∙ scan_plain cs st' (b'=' ∷ rest) refl h.1 ∙ last
  where
    st' : Scan
    st' = record { i = st.i + 1; seg = c ∷ []; key = []; tags = st.tags; skip = false }

    first : scan st (c ∷ (cs ++ (b'=' ∷ rest))) ≡ scan st' (cs ++ (b'=' ∷ rest))
    first = unfold scan scan_round in ground arith

    last :
        scan (record st' { i = st'.i + length cs; seg = c ∷ cs }) (b'=' ∷ rest)
        ≡ scan
            (record {
              i = st.i + suc (length cs) + 1;
              seg = [];
              key = c ∷ cs;
              tags = st.tags;
              skip = false;
            })
            rest
    last = unfold scan scan_round in ground arith

-- The state in which the loop starts on a tag.
abbrev pub at_tag : ℕ → IrcTags → Bool → Scan
at_tag i tags skip = record { i = i; seg = []; key = []; tags = tags; skip = skip }

-- A key and a value, up to the delimiter behind them.
pub scan_pair :
    (k v rest : Bytes) (i : ℕ) (tags : IrcTags) (skip : Bool)
    → IsTag (k, v)
    → scan (at_tag i tags skip) (k ++ (b'=' ∷ (v ++ rest)))
      ≡ scan
          (record { i = i + length k + 1 + length v; seg = v; key = k; tags = tags; skip = false })
          rest
scan_pair k v rest i tags skip h =
    scan_key k (at_tag i tags skip) (v ++ rest) refl refl h.key_plain h.key_ne_nil
    ∙ scan_plain v _ rest refl h.value_plain

scan_last :
    (k v rest : Bytes) (i n : ℕ) (tags : IrcTags)
    → k ≢ []
    → n ≡ i + 1
    → scan (record { i = i; seg = v; key = k; tags = tags; skip = false }) (b' ' ∷ rest)
      ≡ ok (some (insert k v tags, n))
unfolding scan
scan_last [] v rest i n tags ne e = absurd (ne refl)
scan_last (c ∷ k) v rest i n tags ne e = ground arith

pub scan_next :
    (k v rest : Bytes) (i : ℕ) (tags : IrcTags)
    → k ≢ []
    → scan (record { i = i; seg = v; key = k; tags = tags; skip = false }) (b';' ∷ rest)
      ≡ scan (at_tag (i + 1) (insert k v tags) true) rest
unfolding scan
scan_next [] v rest i tags ne = absurd (ne refl)
scan_next (c ∷ k) v rest i tags ne = refl

scan_tags :
    (t : Bytes × Bytes) (ts : List (Bytes × Bytes)) (rest : Bytes) (i : ℕ) (tags : IrcTags)
    (skip : Bool)
    → IsTag t
    → All IsTag ts
    → scan (at_tag i tags skip) (print_tags t ts rest)
      ≡ ok (some (insert_tags t ts tags, i + length (print_tags t ts [])))
scan_tags (k, v) [] rest i tags skip h hs =
    scan_pair k v (b' ' ∷ rest) i tags skip h
    ∙ scan_last k v rest _ _ tags h.key_ne_nil
        (omega (arith, length-append k (b'=' ∷ (v ++ b' ' ∷ [])), length-append v (b' ' ∷ [])))
scan_tags (k, v) (t ∷ ts) rest i tags skip h hs =
    scan_pair k v (b';' ∷ print_tags t ts rest) i tags skip h
    ∙ scan_next k v (print_tags t ts rest) _ tags h.key_ne_nil
    ∙ scan_tags t ts rest _ (insert k v tags) true hs.0 hs.1
    ∙ ap (λ n. ok (some (insert_tags t ts (insert k v tags), n)))
        (omega (
          arith,
          length-append k (b'=' ∷ (v ++ (b';' ∷ print_tags t ts []))),
          length-append v (b';' ∷ print_tags t ts []),
        ))

pub print_tags-append :
    (t : Bytes × Bytes) (ts : List (Bytes × Bytes)) (rest : Bytes)
    → print_tags t ts rest ≡ print_tags t ts [] ++ rest
print_tags-append (k, v) [] rest = simp append_assoc
print_tags-append (k, v) (t ∷ ts) rest = rw (print_tags-append t ts rest) (simp append_assoc)

-- Printing one or more tags in the form `@k=v;k=v ` and reading them with `ParseTags` gives their
-- map, in which a later tag of the same key wins, and the index of the first byte behind the space,
-- whatever follows. The keys are not empty, and neither keys nor values hold `=`, `;` or a space.
pub parse_tags-print_tags :
    (t : Bytes × Bytes) (ts : List (Bytes × Bytes)) (rest : Bytes)
    → IsTag t
    → All IsTag ts
    → parse_tags (b'@' ∷ print_tags t ts rest)
      ≡ ok (some (insert_tags t ts [], 1 + length (print_tags t ts [])))
unfolding parse_tags
parse_tags-print_tags t ts rest h hs = scan_tags t ts rest 1 [] false h hs
