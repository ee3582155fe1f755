-- ===== src/Frame/Header/Flags.antt =====
-- Which flags a header carries after one is set.
use rust_yamux.Common.{ℕ, ◌/◌, ◌%◌, ◌≡◌, Bool, true, ◌==◌, arith, bit_or}
use rust_yamux.Common.Bits
use rust_yamux.Frame.Header.{
  Header, contains, syn, ack, fin, rst, syn_flag, ack_flag, fin_flag, rst_flag,
}

-- The four flags of a set of flags.
pub record Carries (flags : ℕ) (s a f r : Bool) : Type 0 where
  pub syn_bit : contains flags syn_flag ≡ s
  pub ack_bit : contains flags ack_flag ≡ a
  pub fin_bit : contains flags fin_flag ≡ f
  pub rst_bit : contains flags rst_flag ≡ r

contains_syn : (f : ℕ) → contains f syn_flag ≡ (f % 2 == 1)
unfolding contains
contains_syn f = ground (arith, Bits.bit_and-one f)

contains_ack : (f : ℕ) → contains f ack_flag ≡ (f / 2 % 2 == 1)
unfolding contains
contains_ack f = ground (arith, Bits.bit_and_two f)

contains_fin : (f : ℕ) → contains f fin_flag ≡ (f / 4 % 2 == 1)
unfolding contains
contains_fin f = ground (arith, Bits.bit_and_four f)

contains_rst : (f : ℕ) → contains f rst_flag ≡ (f / 8 % 2 == 1)
unfolding contains
contains_rst f = ground (arith, Bits.bit_and_eight f)

contains_digits :
    (n : ℕ) → Carries n (n % 2 == 1) (n / 2 % 2 == 1) (n / 4 % 2 == 1) (n / 8 % 2 == 1)
contains_digits n = record {
  syn_bit = contains_syn n;
  ack_bit = contains_ack n;
  fin_bit = contains_fin n;
  rst_bit = contains_rst n;
}

-- Setting one flag, on the flags alone.
module _ (n : ℕ) {s a f r : Bool} (c : Carries n s a f r) where
  set_syn : Carries (bit_or n syn_flag) true a f r
  set_syn =
      ground (arith, Bits.bit_or-one n, contains_digits n, contains_digits (bit_or n syn_flag))

  set_ack : Carries (bit_or n ack_flag) s true f r
  set_ack =
      ground (arith, Bits.bit_or_two n, contains_digits n, contains_digits (bit_or n ack_flag))

  set_fin : Carries (bit_or n fin_flag) s a true r
  set_fin =
      ground (arith, Bits.bit_or_four n, contains_digits n, contains_digits (bit_or n fin_flag))

  set_rst : Carries (bit_or n rst_flag) s a f true
  set_rst =
      ground (arith, Bits.bit_or_eight n, contains_digits n, contains_digits (bit_or n rst_flag))

-- Each of the setters `syn`, `ack`, `fin` and `rst` sets its own flag and leaves the other three.
pub set_flags :
    (h : Header) {s a f r : Bool}
    → Carries h.flags s a f r
    → Carries (syn h).flags true a f r
      × Carries (ack h).flags s true f r
      × Carries (fin h).flags s a true r
      × Carries (rst h).flags s a f true
unfolding syn ack fin rst
set_flags h c = (set_syn h.flags c, set_ack h.flags c, set_fin h.flags c, set_rst h.flags c)
