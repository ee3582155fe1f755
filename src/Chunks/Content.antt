-- ===== src/Chunks/Content.antt =====
-- The bytes that a queue of chunks still holds, and what each operation does to them.
use rust_yamux.Common.{
  ℕ, ◌+◌, ◌≤◌, ◌≡◌, List, [], ◌∷◌, ◌++◌, arith, length, refl, sym, length-append, append_assoc,
  length-drop, append-nil, ◌∙◌, ap, none,
}
use rust_yamux.Chunks.{
  Chunk, Chunks, offset, as_ref, new, len, push, pop, front_offset, Option, pop_front, some,
}

unfoldable pub unread : List Chunk → List ℕ
unread [] = []
unread (c ∷ cs) = as_ref c ++ unread cs

-- The bytes yet to be read, oldest first.
unfoldable pub content : Chunks → List ℕ
unfolding unread
content s = unread s.seq

unfoldable pub sizes : List Chunk → ℕ
sizes [] = 0
sizes (c ∷ cs) = length c.inner + sizes cs

-- A chunk behind the first has not been read from.
abbrev pub Untouched : List Chunk → Type 0
Untouched [] = Unit {0}
Untouched (c ∷ cs) = (c.position ≡ 0) × Untouched cs

abbrev pub FrontOnly : List Chunk → Type 0
FrontOnly [] = Unit {0}
FrontOnly (c ∷ cs) = (c.position ≤ length c.inner) × Untouched cs

-- The counter is the size of all vectors, and only the first has been read from.
pub record IsValid (s : Chunks) : Type 0 where
  pub total : s.total ≡ sizes s.seq
  pub front : FrontOnly s.seq

unread-append : (xs ys : List Chunk) → unread (xs ++ ys) ≡ unread xs ++ unread ys
unfolding unread
unread-append [] ys = refl
unread-append (c ∷ cs) ys =
    rw (unread-append cs ys) (sym (append_assoc (as_ref c) (unread cs) (unread ys)))

sizes-append : (xs ys : List Chunk) → sizes (xs ++ ys) ≡ sizes xs + sizes ys
unfolding sizes
sizes-append [] ys = omega arith
sizes-append (c ∷ cs) ys = omega (arith, sizes-append cs ys)

Untouched-append : (xs ys : List Chunk) → Untouched xs → Untouched ys → Untouched (xs ++ ys)
Untouched-append [] ys h k = k
Untouched-append (c ∷ cs) ys h k = (h.0, Untouched-append cs ys h.1 k)

pub Untouched-FrontOnly : (cs : List Chunk) → Untouched cs → FrontOnly cs
Untouched-FrontOnly [] h = tt
Untouched-FrontOnly (c ∷ cs) h = (omega (arith, h.0), h.1)

length-unread-Untouched : (cs : List Chunk) → Untouched cs → length (unread cs) ≡ sizes cs
unfolding unread sizes
length-unread-Untouched [] h = refl
length-unread-Untouched (c ∷ cs) h = omega (
  arith,
  length-append (as_ref c) (unread cs),
  length-drop (offset c) c.inner,
  length-unread-Untouched cs h.1,
  h.0,
)

FrontOnly-append : (xs ys : List Chunk) → FrontOnly xs → Untouched ys → FrontOnly (xs ++ ys)
FrontOnly-append [] ys h k = Untouched-FrontOnly ys k
FrontOnly-append (c ∷ cs) ys h k = (h.0, Untouched-append cs ys h.1 k)

pub new_lem : IsValid new × (content new ≡ [])
unfolding new content unread sizes
new_lem = (record { total = refl; front = tt }, refl)

pub push_lem :
    (s : Chunks) (x : List ℕ)
    → IsValid s
    → IsValid (push s x) × (content (push s x) ≡ content s ++ x)
unfolding push content
push_lem s [] v = (v, sym (append-nil (content s)))
push_lem s (b ∷ bs) v = (
  record {
    total = unfold sizes in omega (arith, v.total, sizes-append s.seq (chunk ∷ []));
    front = FrontOnly-append s.seq (chunk ∷ []) v.front (refl, tt);
  },
  unread-append s.seq (chunk ∷ []) ∙ ap (◌++◌ (content s)) (unfold unread in append-nil (b ∷ bs)),
)
  where
    chunk : Chunk
    chunk = record { inner = b ∷ bs; position = 0 }

length-unread : (cs : List Chunk) → FrontOnly cs → length (unread cs) + front_offset cs ≡ sizes cs
unfolding unread sizes
length-unread [] h = refl
length-unread (c ∷ cs) h = omega (
  arith,
  length-append (as_ref c) (unread cs),
  length-drop (offset c) c.inner,
  length-unread-Untouched cs h.1,
  h.0,
)

len-content : (s : Chunks) → IsValid s → len s ≡ length (content s)
unfolding len content
len-content s v = omega (arith, v.total, length-unread s.seq v.front)

-- What `pop` answers on a queue that holds `bytes`.
abbrev pub Pops : List ℕ → Option Chunk × Chunks → Type 0
Pops bytes (none, s) = (bytes ≡ []) × (content s ≡ []) × IsValid s
Pops bytes (some c, s) = (bytes ≡ as_ref c ++ content s) × (c.position ≤ length c.inner) × IsValid s

pop_seq :
    (cs : List Chunk) (n : ℕ) → n ≡ sizes cs → FrontOnly cs → Pops (unread cs) (pop_front cs n)
unfolding pop_front content unread sizes
pop_seq [] n e h = (refl, refl, record { total = e; front = tt })
pop_seq (c ∷ cs) n e h =
    (refl, h.0, record { total = omega (arith, e, h.0); front = Untouched-FrontOnly cs h.1 })

pub pop_lem : (s : Chunks) → IsValid s → Pops (content s) (pop s)
unfolding pop content
pop_lem s v = pop_seq s.seq s.total v.total v.front

-- The queue of chunks behaves as a queue of bytes: a new one is empty, `push` appends its bytes,
-- `len` counts the unread bytes, and `pop` splits the unread part of the first chunk off the front,
-- or answers nothing exactly where nothing is left. Each keeps the invariant.
pub refines_bytes :
    (s : Chunks) (x : List ℕ)
    → IsValid s
    → IsValid new
      × (content new ≡ [])
      × IsValid (push s x)
      × (content (push s x) ≡ content s ++ x)
      × (len s ≡ length (content s))
      × Pops (content s) (pop s)
refines_bytes s x v =
    (new_lem.0, new_lem.1, (push_lem s x v).0, (push_lem s x v).1, len-content s v, pop_lem s v)
