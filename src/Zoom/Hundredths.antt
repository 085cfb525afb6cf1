-- ===== src/Zoom/Hundredths.antt =====
-- Numbers with two decimals, which round in products and quotients: whole numbers of hundredths.
use pikoci.Base.{ℕ, suc, ◌+◌, ◌-◌, ◌*◌, ◌/◌, refl, leb, if◌then◌else◌, arith}
use pikoci.Zoom.Numbers.{Numbers, IsReal}

-- `negsuc n` is -(n + 1).
pub data ℤ : Type 0 where
  pos : ℕ → ℤ
  negsuc : ℕ → ℤ

abbrev above : ℤ → ℕ
above (pos k) = k
above (negsuc k) = 0

abbrev below : ℤ → ℕ
below (pos k) = 0
below (negsuc k) = suc k

abbrev difference : ℕ → ℕ → ℤ
difference a b = if leb b a then pos (a - b) else negsuc (b - a - 1)

abbrev quotient : ℤ → ℤ → ℤ
quotient a (pos b) = difference (above a * 100 / b) (below a * 100 / b)
quotient a (negsuc b) = difference (below a * 100 / suc b) (above a * 100 / suc b)

abbrev pub hundredths : Numbers
hundredths = record {
  Number = ℤ;
  ratio = λ p q. pos (p * 100 / q);
  add = λ a b. difference (above a + above b) (below a + below b);
  sub = λ a b. difference (above a + below b) (below a + above b);
  mul = λ a b.
      difference ((above a * above b + below a * below b) / 100)
        ((above a * below b + below a * above b) / 100);
  div = quotient;
  sqrt = λ a. a;
  at_most = λ a b. leb (above a + below b) (above b + below a);
}

pub hundredths-IsReal : IsReal hundredths
hundredths-IsReal = record {
  div_one = λ a. ground arith;
  at_most_refl = λ a. ground arith;
  at_most_total = λ a b h. ground (arith, h);
  quarter_one = refl;
  one_four = refl;
  quarter_four = refl;
}
