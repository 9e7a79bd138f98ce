-- ===== src/Infra/Duration.antt =====
-- time.Duration(n)*time.Second, and what fmt writes for a verb %d.
use kenshu_elaris_project_pa.Base.{
  ℕ, suc, ◌-◌, ◌*◌, ◌%◌, ◌^◌, ◌≤◌, ◌≡◌, refl, ltb, true, arith, if◌then◌else◌, ◌++◌,
}
use kenshu_elaris_project_pa.Base.Int.{ℤ, pos, negsuc, ltb_ℤ}
use kenshu_elaris_project_pa.Go.Text.{GoString, lit, show_nat}

-- A time.Duration, in nanoseconds.
abbrev pub Duration : Type 0
Duration = ℤ

-- The signed number of 64 bits that `m % 2 ^ 64` stands for.
unfoldable pub to_int64 : ℕ → ℤ
to_int64 m = let r = m % 2 ^ 64 in if ltb r (2 ^ 63) then pos r else negsuc (2 ^ 64 - 1 - r)

unfoldable pub seconds : ℤ → Duration
unfolding to_int64
seconds (pos n) = to_int64 (n * 1000000000)
seconds (negsuc n) = to_int64 (2 ^ 64 - suc n * 1000000000 % 2 ^ 64)

unfoldable pub show_int : ℤ → GoString
unfolding show_nat
show_int (pos n) = show_nat n
show_int (negsuc n) = lit "-" ++ show_nat (suc n)

-- fmt.Sprintf("%s:%d", host, port)
unfoldable pub host_and_port : GoString → ℤ → GoString
unfolding show_int
host_and_port host port = host ++ (lit ":" ++ show_int port)

-- A number of seconds that is not negative becomes that many nanoseconds if it is at most
-- 9223372036 (292 years); of the next one the 64 bits overflow, and the duration is negative.
pub seconds_exact :
    (n : ℕ)
    → n ≤ 9223372036
    → (seconds (pos n) ≡ pos (n * 1000000000)) × (ltb_ℤ (seconds (pos 9223372037)) (pos 0) ≡ true)
unfolding seconds to_int64
seconds_exact n h = (grind arith, refl)
