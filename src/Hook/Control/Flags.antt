-- ===== src/Hook/Control/Flags.antt =====
-- The flags that a program sees through the hooked fcntl.
use xupeng.Prelude.{
  ℕ, ◌+◌, ◌-◌, ◌*◌, ◌/◌, ◌%◌, ◌^◌, ◌<◌, ◌≡◌, ◌≢◌, refl, ap, ◌∙◌, Bool, true, false, not, ◌||◌,
  Option, none, some, ◌==◌, if◌then◌else◌, bit_and, bit_or, Bool-cases, inl, inr, arith,
}
use xupeng.Prelude.Bits.{bit_and_step, bit_or_step, bit_and-one, bit_or-zero, bit_and-zero}
use xupeng.Prelude.Masks.{bit_or-parts, bit_and-parts, bit_and_low}
use xupeng.FdManager.{FdCtx}
use xupeng.Hook.Control.{o_nonblock, set_nonblock, clear_nonblock, fcntl_set, fcntl_get}

-- The flags but for O_NONBLOCK.
abbrev others : ℕ → ℕ
others v = v / 4096 * 4096 + v % 2048

split : (v : ℕ) → v ≡ v / 2048 * 2048 + v % 2048
split v = omega arith

test_nonblock : (v : ℕ) → bit_and v o_nonblock ≡ v / 2048 % 2 * 2048
test_nonblock v =
    let parts = bit_and-parts 11 (v / 2048) 1 (v % 2048) 0 (omega arith) (omega arith) in
    ap (λ (t : ℕ). bit_and t o_nonblock) (split v)
    ∙ parts
    ∙ omega (arith, bit_and-one (v / 2048), bit_and-zero (v % 2048) (v % 2048) (omega arith))

set_nonblock-others : (v : ℕ) → set_nonblock v ≡ others v + 2048
set_nonblock-others v =
    let parts = bit_or-parts 11 (v / 2048) 1 (v % 2048) 0 (omega arith) (omega arith) in
    ap (λ (t : ℕ). bit_or t o_nonblock) (split v)
    ∙ parts
    ∙ omega (
      arith,
      bit_or_step (v / 2048) 1,
      bit_or-zero (v / 2048 / 2) (v / 2048 / 2) (omega arith),
      bit_or-zero (v % 2048) (v % 2048) (omega arith),
    )

clear_nonblock-others : (v : ℕ) → v < 2 ^ 32 → clear_nonblock v ≡ others v
clear_nonblock-others v h =
    let parts =
      bit_and-parts 11 (v / 2048) (2 ^ 21 - 2) (v % 2048) (2 ^ 11 - 1) (omega arith)
        (omega arith) in
    ap (λ (t : ℕ). bit_and t (2 ^ 32 - 1 - o_nonblock)) (split v)
    ∙ parts
    ∙ omega (
      arith,
      h,
      bit_and_step (v / 2048) (2 ^ 21 - 2),
      bit_and_low 20 (v / 2048 / 2),
      bit_and_low 11 (v % 2048),
    )

-- Setting or clearing the flag before it is read makes no difference to the others.
others-set : (v : ℕ) → others (others v + 2048) ≡ others v
others-set v = omega arith

others-others : (v : ℕ) → others (others v) ≡ others v
others-others v = omega arith

others-lt : (v : ℕ) → v < 2 ^ 32 → others v + 2048 < 2 ^ 32
others-lt v h = omega arith

passed-others :
    (b : Bool) (v : ℕ)
    → v < 2 ^ 32
    → let p = (if b then set_nonblock v else clear_nonblock v) in
      (others p ≡ others v) × (p < 2 ^ 32)
passed-others true v h = rw (set_nonblock-others v) (others-set v, others-lt v h)
passed-others false v h =
    rw (clear_nonblock-others v h) (others-others v, omega (arith, others-lt v h))

-- The flag as the user has set it, put with the others.
user_flag :
    (v p : ℕ)
    → v < 2 ^ 32
    → p < 2 ^ 32
    → others p ≡ others v
    → (if not (bit_and v o_nonblock == 0) then set_nonblock p else clear_nonblock p) ≡ v
user_flag v p h h' e = elim (Bool-cases (bit_and v o_nonblock == 0)) [
  | inl z ↦
      let clear : bit_and v o_nonblock ≡ 0 = ground (arith, z) in
      rw z (clear_nonblock-others p h' ∙ e ∙ omega (arith, test_nonblock v, clear))
  | inr z ↦
      let set : bit_and v o_nonblock ≢ 0 = λ q. ground (arith, z, q) in
      rw z (set_nonblock-others p ∙ omega (arith, e, test_nonblock v, set))
]

-- After F_SETFL with any flags the hooked F_GETFL gives these flags back, when the system call answers with
-- the flags that were passed on to it.
pub fcntl_get-fcntl_set :
    (ctx : Option FdCtx) (arg : ℕ)
    → arg < 2 ^ 32
    → fcntl_get (fcntl_set ctx arg).0 (fcntl_set ctx arg).1 ≡ arg
unfolding fcntl_get fcntl_set
fcntl_get-fcntl_set none arg h = refl
fcntl_get-fcntl_set (some c) arg h = elim (Bool-cases (c.is_closed || not c.is_socket)) [
  | inl e ↦ rw (e, e) refl
  | inr e ↦
      let p = if c.sys_nonblock then set_nonblock arg else clear_nonblock arg in
      let (same, fits) = passed-others c.sys_nonblock arg h in
      rw (e, e) (user_flag arg p h fits same)
]
