-- ===== src/Session/Flight.antt =====
-- The frames of one stream on their way: the bytes and the credit that they carry, and where the FIN
-- stands among them.
use rust_yamux.Common.{
  ℕ, ◌+◌, ◌≡◌, ◌⊎◌, refl, Bool, true, false, List, [], ◌∷◌, ◌++◌, arith, All, append_assoc, sym, ap,
  ◌∙◌, inl, inr,
}
use rust_yamux.Frame.{Frame}
use rust_yamux.Frame.Header.{
  Tag, data_tag, window_update_tag, contains, syn_flag, fin_flag, rst_flag,
}
use rust_yamux.Stream.Handle.{StreamCommand}
use rust_yamux.Connection.Wires.{command_frame}

-- The bytes of the frames, in order.
unfoldable pub bodies : List Frame → List ℕ
bodies [] = []
bodies (f ∷ fs) = f.body ++ bodies fs

unfoldable pub credit_of : Tag → ℕ → ℕ
credit_of window_update_tag n = n
credit_of _ n = 0

-- The credit that the frames grant.
unfoldable pub credits : List Frame → ℕ
unfolding credit_of
credits [] = 0
credits (f ∷ fs) = credit_of f.header.tag f.header.length + credits fs

abbrev pub has_fin : Frame → Bool
has_fin f = contains f.header.flags fin_flag

abbrev pub NoFin : List Frame → Type 0
NoFin fs = All (λ f. has_fin f ≡ false) fs

-- Nothing follows a FIN that has bytes.
abbrev pub FinLast : List Frame → Type 0
FinLast [] = Unit {0}
FinLast (f ∷ fs) = (has_fin f ≡ true → bodies fs ≡ []) × FinLast fs

-- A frame of the opened stream `id`: data, or credit without FIN.
pub record Carried (id : ℕ) (f : Frame) : Type 0 where
  pub names : f.header.stream_id ≡ id
  pub no_syn : contains f.header.flags syn_flag ≡ false
  pub no_rst : contains f.header.flags rst_flag ≡ false
  pub shape :
      (f.header.tag ≡ data_tag)
      ⊎ (f.header.tag ≡ window_update_tag) × (f.body ≡ []) × (has_fin f ≡ false)

-- The frames of the queued commands.
unfoldable pub frames_of : ℕ → List StreamCommand → List Frame
frames_of id [] = []
frames_of id (cmd ∷ cmds) = command_frame id cmd ∷ frames_of id cmds

pub frames_of-append :
    (id : ℕ) (xs ys : List StreamCommand)
    → frames_of id (xs ++ ys) ≡ frames_of id xs ++ frames_of id ys
unfolding frames_of
frames_of-append id [] ys = refl
frames_of-append id (x ∷ xs) ys = ap (◌∷◌ (command_frame id x)) (frames_of-append id xs ys)

pub bodies-append : (xs ys : List Frame) → bodies (xs ++ ys) ≡ bodies xs ++ bodies ys
unfolding bodies
bodies-append [] ys = refl
bodies-append (f ∷ fs) ys =
    ap (◌++◌ f.body) (bodies-append fs ys) ∙ sym (append_assoc f.body (bodies fs) (bodies ys))

pub credits-append : (xs ys : List Frame) → credits (xs ++ ys) ≡ credits xs + credits ys
unfolding credits
credits-append [] ys = omega arith
credits-append (f ∷ fs) ys = omega (arith, credits-append fs ys)

append-empty : (xs ys : List ℕ) → xs ≡ [] → ys ≡ [] → xs ++ ys ≡ []
append-empty xs ys e f = rw (e, f) refl

pub FinLast-append :
    (xs ys : List Frame)
    → FinLast xs
    → FinLast ys
    → (NoFin xs ⊎ (bodies ys ≡ []))
    → FinLast (xs ++ ys)
FinLast-append [] ys h k e = k
FinLast-append (f ∷ fs) ys h k (inl n) =
    (λ p. absurd (ground (arith, n.0)), FinLast-append fs ys h.1 k (inl n.1))
FinLast-append (f ∷ fs) ys h k (inr e) = (
  λ p. bodies-append fs ys ∙ append-empty (bodies fs) (bodies ys) (h.0 p) e,
  FinLast-append fs ys h.1 k (inr e),
)
