-- ===== src/Harness/Opener/Opens.antt =====
-- `OpenStreamsClient` opens as many streams as it was asked for.
use rust_yamux.Common.{
  ℕ, ◌-◌, ◌≡◌, ◌≢◌, ◌<◌, List, [], ◌∷◌, ◌++◌, length, length-append, append_assoc, append-nil, ap,
  sym, ◌∙◌, refl, Option, none, some, Result, ok, err, Poll, ready, pending, panicked, stuck, arith,
  Bool-cases, inl, inr, subst, ltb, ◌==◌,
}
use rust_yamux.Error.{ConnectionError}
use rust_yamux.Connection.Active.{Handle}
use rust_yamux.Harness.{Peer}
use rust_yamux.Harness.Laws.{Responsive, Turns, run_ends}
use rust_yamux.Harness.Opener.{OpenStreamsClient, Output, Turn, finish, opened, driven, turn, poll}

module _ {S : Type 0} where
  abbrev pub to_go : OpenStreamsClient S → ℕ
  to_go c = c.to_open - length c.streams

  -- `hs` are the streams that `c` had, and then more.
  abbrev pub Extends : OpenStreamsClient S → List Handle → Type 0
  Extends c hs = (more : List Handle) × (hs ≡ c.streams ++ more)

  -- The ends of a call, from `c`.
  unfoldable pub Ends : OpenStreamsClient S → Output S × OpenStreamsClient S → Type 0
  Ends c (ready (ok (s, hs)), d) =
      (length hs ≡ c.to_open) × Extends c hs × (d.connection ≡ none) × (d.streams ≡ [])
  Ends c (ready (err e), d) = Extends c d.streams
  Ends c (pending, d) = Extends c d.streams × (length d.streams ≢ c.to_open) × (d.connection ≢ none)
  Ends c (panicked, d) = Extends c d.streams
  Ends c (stuck, d) = ⊥

  same : (c : OpenStreamsClient S) → Extends c c.streams
  same c = ([], sym (append-nil c.streams))

  longer :
      (c d : OpenStreamsClient S) (h : Handle)
      → d.streams ≡ c.streams ++ (h ∷ [])
      → (hs : List Handle) → Extends d hs
      → Extends c hs
  longer c d h e hs (more, m) =
      (h ∷ more, m ∙ ap (λ x. x ++ more) e ∙ append_assoc c.streams (h ∷ []) more)

  -- What holds from the state with one stream more holds from the state before.
  carries :
      (c d : OpenStreamsClient S) (h : Handle)
      → d.streams ≡ c.streams ++ (h ∷ [])
      → d.to_open ≡ c.to_open
      → (out : Output S × OpenStreamsClient S) → Ends d out
      → Ends c out
  unfolding Ends
  carries c d h e t (ready (ok (s, hs)), x) (l, m, p, q) = (l ∙ t, longer c d h e hs m, p, q)
  carries c d h e t (ready (err y), x) m = longer c d h e x.streams m
  carries c d h e t (pending, x) (m, l, p) = (longer c d h e x.streams m, λ q. l (q ∙ sym t), p)
  carries c d h e t (panicked, x) m = longer c d h e x.streams m
  carries c d h e t (stuck, x) m = m

  module _ (peer : Peer S) (calm : Responsive peer) where
    abbrev T : OpenStreamsClient S → Turn S → Type 0
    T = Turns (turn peer) to_go Ends

    finish_ends : (s : S) (c : OpenStreamsClient S) → T c (finish s c)
    unfolding Ends
    finish_ends s c = elim (Bool-cases (length c.streams == c.to_open)) [
      | inl q ↦
          let p : (some (ready (ok (s, c.streams))), record c { connection = none; streams = [] })
              ≡ finish s c =
            unfold finish in ground arith in
          subst (T c) p (ground arith, same c, refl, refl)
      | inr q ↦
          let p : (some pending, record c { connection = some s }) ≡ finish s c =
            unfold finish in ground arith in
          subst (T c) p (same c, λ r. ground arith, λ r. cc)
    ]

    opened_ends :
        (c : OpenStreamsClient S)
        → length c.streams < c.to_open
        → (x : Poll (Result ConnectionError Handle) × S) → x.0 ≢ stuck
        → T c (opened x c)
    unfolding opened Ends
    opened_ends c l (ready (ok h), s) n = (
      omega (arith, length-append c.streams (h ∷ [])),
      carries c (record c { connection = some s; streams = c.streams ++ (h ∷ []) }) h refl refl,
    )
    opened_ends c l (ready (err e), s) n = same c
    opened_ends c l (pending, s) n = finish_ends s c
    opened_ends c l (panicked, s) n = same c
    opened_ends c l (stuck, s) n = absurd (n refl)

    driven_ends :
        (c : OpenStreamsClient S) (x : Poll (Option (Result ConnectionError Handle)) × S)
        → x.0 ≢ stuck
        → T c (driven peer x c)
    unfolding driven Ends
    driven_ends c (ready (some (ok h)), s) n = same c
    driven_ends c (ready (some (err e)), s) n = same c
    driven_ends c (ready none, s) n = same c
    driven_ends c (pending, s) n = elim (Bool-cases (ltb (length c.streams) c.to_open)) [
      | inl q ↦
          let p : opened (peer.poll_new_outbound s) c ≡ driven peer (pending, s) c = ground arith in
          subst (T c) p (opened_ends c (ground arith) _ (calm.outbound s))
      | inr q ↦
          let p : finish s c ≡ driven peer (pending, s) c = ground arith in
          subst (T c) p (finish_ends s c)
    ]
    driven_ends c (panicked, s) n = same c
    driven_ends c (stuck, s) n = absurd (n refl)

    turn_ends : (c : OpenStreamsClient S) → T c (turn peer c)
    unfolding Ends
    turn_ends c = go c.connection refl
      where
        go : (x : Option S) → c.connection ≡ x → T c (turn peer c)
        go none e =
            let p : (some panicked, c) ≡ turn peer c = unfold turn in ground arith in
            subst (T c) p (same c)
        go (some s) e =
            let p : driven peer (peer.poll_next_inbound s) c ≡ turn peer c =
              unfold turn in ground arith in
            subst (T c) p (driven_ends c _ (calm.inbound s))

    -- A call of `OpenStreamsClient::poll` with fuel for each stream that is to be opened and one turn
    -- more ends, and keeps the streams that it had, in front. Where it ends with streams, they are as
    -- many as were asked for, and the connection is given back with them; where it is pending, they are
    -- not as many, and the connection stays. The loops of the connection have enough fuel.
    pub opens_all :
        (fuel : ℕ) (c : OpenStreamsClient S) → to_go c < fuel → Ends c (poll peer fuel c)
    unfolding poll
    opens_all fuel c l = run_ends (turn peer) to_go Ends turn_ends fuel c l
