-- ===== src/Stream/Copying.antt =====
-- The loop of `poll_read` that copies bytes out of the queue of chunks.
use rust_yamux.Common.{
  ℕ, ◌+◌, ◌-◌, ◌≤◌, ◌≡◌, List, ◌++◌, arith, length, take, drop, Poll, ready, ◌∷◌, ◌*◌,
  length-append, drop-append_left, take-append_left, ◌∙◌, ◌<◌, if◌then◌else◌, length-take, suc, [],
  zero, append_assoc, take_all, append-nil, true, drop-drop, refl, take-drop-append, drop_all, some,
  Bool-cases, inl, inr, min, length-drop, false, ◌==◌, ◌≢◌, sym,
}
use rust_yamux.Chunks.{Chunk, Chunks, is_empty, chunk_len, as_ref, offset, advance}
use rust_yamux.Chunks
use rust_yamux.Chunks.Content.{Untouched-FrontOnly, content, unread, sizes, IsValid}
use rust_yamux.Stream.Reader.{copy, copy_fuel}

-- The buffer gets as many of the unread bytes as it has room for, in order, and the rest stays.
pub record Copied (want : ℕ) (got : List ℕ) (s : Chunks) (out : List ℕ × Chunks) : Type 0 where
  pub bytes : out.0 ≡ got ++ take (want - length got) (content s)
  pub rest : content out.1 ≡ drop (want - length got) (content s)
  pub valid : IsValid out.1

abbrev pub Copies : ℕ → List ℕ → Chunks → Poll (List ℕ × Chunks) → Type 0
Copies want got s (ready out) = Copied want got s out
Copies want got s _ = ⊥

-- The rounds that the loop needs.
need : List Chunk → ℕ
need [] = 0
need (c ∷ cs) = (if is_empty c then 1 else 2) + 2 * length cs

need_le : (cs : List Chunk) → need cs ≤ 2 * length cs
unfolding need
need_le [] = omega arith
need_le (c ∷ cs) = ground arith

need-popped :
    (c : Chunk) (cs : List Chunk) (fuel : ℕ)
    → need (c ∷ cs) < suc fuel
    → is_empty c ≡ true
    → need cs < fuel
unfolding need
need-popped c cs fuel f e = ground (arith, need_le cs)

-- One round that takes `k` bytes of the first chunk.
module _ (want k : ℕ) (got bytes more : List ℕ) (s s' : Chunks) (out : List ℕ × Chunks)
    (here : content s ≡ bytes ++ more) (there : content s' ≡ drop k bytes ++ more)
    (fits : k ≤ length bytes) (room : k + length got ≤ want) where
  left : want - length (got ++ take k bytes) ≡ want - length got - k
  left = omega (arith, length-append got (take k bytes), length-take k bytes)

  before-there : drop k (content s) ≡ content s'
  before-there = rw (here, there) (drop-append_left k bytes more fits)

  front : take k (content s) ≡ take k bytes
  front = rw here (take-append_left k bytes more fits)

  whole : k + (want - length got - k) ≡ want - length got
  whole = omega arith

  extend : Copied want (got ++ take k bytes) s' out → Copied want got s out
  extend c = record {
    bytes =
        c.bytes
        ∙ rw (left, ← front, ← before-there, append_assoc)
            (rw (take-drop-append (want - length got - k) k (content s), whole));
    rest =
        c.rest ∙ rw (left, ← before-there, drop-drop (want - length got - k) k (content s), whole);
    valid = c.valid;
  }

copy-nil :
    (want : ℕ) (got : List ℕ) (s : Chunks) → content s ≡ [] → IsValid s → Copied want got s (got, s)
copy-nil want got s e v = record {
  bytes = rw (e, take_all {A = ℕ} (want - length got) [] (omega arith), append-nil);
  rest = rw (e, drop_all {A = ℕ} (want - length got) [] (omega arith));
  valid = v;
}

-- Where the buffer is full nothing is taken.
copy_full :
    (want : ℕ) (got : List ℕ) (s : Chunks)
    → length got ≡ want
    → IsValid s
    → Copied want got s (got, s)
copy_full want got s e v =
    let z : want - length got ≡ 0 = omega arith in
    record { bytes = rw (z, append-nil); rest = rw z; valid = v }

module _ (c : Chunk) (cs : List Chunk) (n k : ℕ)
    (v : IsValid (record { seq = c ∷ cs; total = n })) where
  abbrev chunks : Chunks
  chunks = record { seq = c ∷ cs; total = n }

  abbrev moved : Chunks
  moved = record { seq = record c { position = c.position + k } ∷ cs; total = n }

  abbrev popped : Chunks
  popped = record { seq = cs; total = n - (chunk_len c + offset c) }

  popped-IsValid : IsValid popped
  unfolding sizes
  popped-IsValid = record {
    total = omega (arith, v.total, v.front.0);
    front = Untouched-FrontOnly cs v.front.1;
  }

  content-popped : is_empty c ≡ true → content popped ≡ content chunks
  unfolding content unread
  content-popped e = rw (drop_all {A = ℕ} (offset c) c.inner (ground arith))

  content-moved : content moved ≡ drop k (as_ref c) ++ unread cs
  unfolding content unread
  content-moved = rw (drop-drop k c.position c.inner)

  moved-IsValid : k ≤ chunk_len c → IsValid moved
  unfolding sizes
  moved-IsValid h = record { total = v.total; front = (omega (arith, v.front.0), v.front.1) }

  advance-moved : k ≤ chunk_len c → advance c k ≡ some (record c { position = c.position + k })
  unfolding advance
  advance-moved h = ground (arith, v.front.0)

Copies-map :
    (want : ℕ) (got got' : List ℕ) (s s' : Chunks) (r : Poll (List ℕ × Chunks))
    → ((out : List ℕ × Chunks) → Copied want got s out → Copied want got' s' out)
    → Copies want got s r
    → Copies want got' s' r
Copies-map want got got' s s' (ready out) f h = f out h
Copies-map want got got' s s' _ f h = absurd h

Copied-same :
    (want : ℕ) (got : List ℕ) (s s' : Chunks) (out : List ℕ × Chunks)
    → content s ≡ content s'
    → Copied want got s out
    → Copied want got s' out
Copied-same want got s s' out e c = record {
  bytes = rw (← e) (c.bytes);
  rest = rw (← e) (c.rest);
  valid = c.valid;
}

-- The bytes that a round takes, and the buffer after it.
abbrev taken : ℕ → List ℕ → Chunk → ℕ
taken want got c = min (chunk_len c) (want - length got)

abbrev got_next : ℕ → List ℕ → Chunk → List ℕ
got_next want got c = got ++ take (taken want got c) (as_ref c)

length-got_next :
    (want : ℕ) (got : List ℕ) (c : Chunk)
    → length (got_next want got c) ≡ length got + taken want got c
length-got_next want got c = omega (
  arith,
  length-append got (take (taken want got c) (as_ref c)),
  length-take (taken want got c) (as_ref c),
  length-drop (offset c) c.inner,
)

-- The round that takes bytes of the first chunk, seen from what it leaves.
module _ (want : ℕ) (got : List ℕ) (c : Chunk) (cs : List Chunk) (n : ℕ)
    (v : IsValid (record { seq = c ∷ cs; total = n })) (g : length got ≤ want) where
  after_round :
      (out : List ℕ × Chunks)
      → Copied want (got_next want got c) (moved c cs n (taken want got c) v) out
      → Copied want got (record { seq = c ∷ cs; total = n }) out
  after_round out =
      extend want (taken want got c) got (as_ref c) (unread cs) _ _ out
        (unfold content unread in refl) (content-moved c cs n (taken want got c) v)
        (omega (arith, length-drop (offset c) c.inner)) (omega arith)

  full_round :
      length (got_next want got c) ≡ want
      → Copied want got
          (record { seq = c ∷ cs; total = n })
          (got_next want got c, moved c cs n (taken want got c) v)
  full_round e =
      after_round _ (copy_full want _ _ e (moved-IsValid c cs n (taken want got c) v (omega arith)))

  need-moved :
      (fuel : ℕ)
      → need (c ∷ cs) < suc fuel
      → is_empty c ≡ false
      → length (got_next want got c) ≢ want
      → need (moved c cs n (taken want got c) v).seq < fuel
  unfolding need
  need-moved fuel f e h = ground (arith, length-got_next want got c)

copy-Copies :
    (fuel want : ℕ) (got : List ℕ) (cs : List Chunk) (n : ℕ)
    → IsValid (record { seq = cs; total = n })
    → need cs < fuel
    → length got ≤ want
    → Copies want got
        (record { seq = cs; total = n })
        (copy fuel want got (record { seq = cs; total = n }))
unfolding copy Chunks.pop
copy-Copies zero want got cs n v f g = absurd (omega arith)
copy-Copies (suc fuel) want got [] n v f g = copy-nil want got _ (unfold content unread in refl) v
copy-Copies (suc fuel) want got (c ∷ cs) n v f g = elim (Bool-cases (is_empty c)) [
  | inl e ↦
      rw (e, copy)
        (Copies-map want got got _ _ (copy fuel want got (popped c cs n 0 v))
          (λ out. Copied-same want got _ _ out (content-popped c cs n 0 v e))
          (copy-Copies fuel want got cs (n - (chunk_len c + offset c)) (popped-IsValid c cs n 0 v)
            (need-popped c cs fuel f e) g))
  | inr e ↦
      rw (e, copy, advance-moved c cs n (taken want got c) v (omega arith))
        (elim (Bool-cases (length (got_next want got c) == want)) [
          | inl h ↦ rw (h, copy) (full_round want got c cs n v g (ground arith))
          | inr h ↦
              rw (h, copy)
                (Copies-map want (got_next want got c) got _ _ _ (after_round want got c cs n v g) (
                  copy-Copies fuel want (got_next want got c)
                    (record c { position = c.position + taken want got c } ∷ cs) n
                    (moved-IsValid c cs n (taken want got c) v (omega arith))
                    (need-moved want got c cs n v g fuel f e (ground arith))
                    (omega (arith, length-got_next want got c))))
        ])
]

pub copy_total :
    (want : ℕ) (s : Chunks) → IsValid s → Copies want [] s (copy (copy_fuel s) want [] s)
copy_total want s v =
    copy-Copies (copy_fuel s) want [] s.seq s.total v (omega (arith, need_le s.seq)) (omega arith)

pub Copied-whole :
    (want : ℕ) (s : Chunks) (out : List ℕ × Chunks)
    → Copied want [] s out
    → (take want (content s) ≡ out.0) × (content out.1 ≡ drop want (content s)) × IsValid out.1
Copied-whole want s out c =
    let z : want - 0 ≡ want = omega arith in (sym (rw z at c.bytes), rw z at c.rest, c.valid)
