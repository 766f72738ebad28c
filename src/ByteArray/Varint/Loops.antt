-- ===== src/ByteArray/Varint/Loops.antt =====
-- The two loops of the variable-length integers: `put_loop` fits its slots, and `get_loop` reads
-- its bytes back.
use xupeng.Prelude.{
  ℕ, zero, suc, ◌+◌, ◌*◌, ◌/◌, ◌%◌, ◌^◌, ◌≤◌, ◌<◌, ◌≡◌, ap, bit_and, bit_or, List, [], ◌∷◌, ◌++◌,
  length, some, ltb, if◌then◌else◌, le→leb, lt→leb, le→ltb, lt→ltb, arith,
}
use xupeng.Prelude.Bits.{bit_or-shift, bit_and_low_seven, bit_or_top_bit}
use xupeng.Prelude.Outcome.{ok}
use xupeng.ByteArray.{ByteArray, Endian}
use xupeng.ByteArray.Serving.{Serves, Serves-cut, Serves-next}
use xupeng.ByteArray.Fixed.RoundTrip.{read_fuint8-Serves}
use xupeng.ByteArray.Varint.{put_loop, get_loop}
use native.Mathlib.Nat.{pow-suc, mod-eq_of_lt}
use native.Mathlib.Numerals.{towards_suc}
use native.Mathlib.Decide.{dec_lt}

-- The groups of seven bits, lowest first, all but the last with the top bit set.
pub groups : ℕ → ℕ → List ℕ
groups zero v = v ∷ []
groups (suc k) v =
    let rest = groups k (v / 128) in if ltb v 128 then v ∷ [] else (v % 128 + 128) ∷ rest

pub put_loop-groups : (k v : ℕ) → v < 128 ^ suc k → put_loop (suc k) v ≡ some (groups k v)
unfolding put_loop groups
put_loop-groups zero v h =
    rw (lt→leb 0x80 v (omega arith), mod-eq_of_lt {n = v} {m = 256} (omega arith))
put_loop-groups (suc k) v h = elim (dec_lt v 128) [
  | yes small ↦
      rw (lt→leb 0x80 v small, lt→ltb v 128 small, mod-eq_of_lt {n = v} {m = 256} (omega arith))
  | no large ↦ rw (
    le→leb 0x80 v (omega arith),
    le→ltb v 128 (omega arith),
    bit_and_low_seven v,
    bit_or_top_bit (v % 128) (omega arith),
    put_loop-groups k (v / 128) (omega (arith, pow-suc 128 (suc k))),
  )
]

pub length-groups : (k v : ℕ) → (1 ≤ length (groups k v)) × (length (groups k v) ≤ k + 1)
unfolding groups
length-groups zero v = omega arith
length-groups (suc k) v = ground (arith, length-groups k (v / 128))

shift_seven : (i : ℕ) → 2 ^ (i + 7) ≡ 128 * 2 ^ i
shift_seven i = simp towards_suc (omega arith)

split_group : (v i : ℕ) → v * 2 ^ i ≡ v % 128 * 2 ^ i + v / 128 * 2 ^ (i + 7)
split_group v i =
    omega
      (arith, ap (λ (t : ℕ). v / 128 * t) (shift_seven i), ap (λ (t : ℕ). t * 2 ^ i) (div_mod v))
  where
    div_mod : (n : ℕ) → n ≡ n / 128 * 128 + n % 128
    div_mod n = omega arith

group_bound : (g p : ℕ) → g < 128 → g * p ≤ 127 * p
group_bound g p h = grind arith

-- `result |= g << i` adds, where `result` fits `i` bits and the sum fits the word.
or_adds :
    (w i g result : ℕ)
    → result < 2 ^ i
    → result + g * 2 ^ i < 2 ^ w
    → bit_or result (g * 2 ^ i % 2 ^ w) ≡ result + g * 2 ^ i
or_adds w i g result h fits =
    rw (mod-eq_of_lt {n = g * 2 ^ i} {m = 2 ^ w} (omega arith)) (bit_or-shift i g result h)

module _ (host e : Endian) (w : ℕ) where
  abbrev Gets : ℕ → ℕ → ℕ → List ℕ → ByteArray → ℕ → Type 0
  Gets rounds i result rest b value =
      (b' : ByteArray) × (get_loop host w rounds i result b ≡ ok (value, b')) × Serves e [] rest b'

  last_byte :
      (k i v result : ℕ) (rest : List ℕ) (b : ByteArray)
      → v < 128
      → result < 2 ^ i
      → result + v * 2 ^ i < 2 ^ w
      → Serves e (v ∷ []) rest b
      → Gets (suc k) i result rest b (result + v * 2 ^ i)
  unfolding get_loop
  last_byte k i v result rest b small h fits s =
      let (b', runs, s') = read_fuint8-Serves host e v rest b s in
      (b', rw (runs, lt→ltb v 0x80 small, or_adds w i v result h fits), s')

  inner_byte :
      (k i g result value : ℕ) (bs rest : List ℕ) (b : ByteArray)
      → g < 128
      → result < 2 ^ i
      → result + g * 2 ^ i < 2 ^ w
      → Serves e ((g + 128) ∷ bs) rest b
      → ((b' : ByteArray) → Serves e bs rest b' → Gets k (i + 7) (result + g * 2 ^ i) rest b' value)
      → Gets (suc k) i result rest b value
  unfolding get_loop
  inner_byte k i g result value bs rest b small h fits s more =
      let (b', runs, s') =
        read_fuint8-Serves host e (g + 128) (bs ++ rest) b
          (Serves-cut e ((g + 128) ∷ []) bs rest b s) in
      let (b'', runs', s'') = more b' (Serves-next e bs rest b' s') in
      let low : bit_and (g + 128) 0x7f ≡ g = omega (arith, bit_and_low_seven (g + 128)) in
      (
        b'',
        rw (runs, le→ltb (g + 128) 0x80 (omega arith), low, or_adds w i g result h fits) runs',
        s'',
      )

  pub get_loop-groups :
      (k i v result : ℕ) (rest : List ℕ) (b : ByteArray)
      → v < 128 ^ suc k
      → result < 2 ^ i
      → result + v * 2 ^ i < 2 ^ w
      → Serves e (groups k v) rest b
      → Gets (suc k) i result rest b (result + v * 2 ^ i)
  unfolding groups
  get_loop-groups zero i v result rest b hv h fits s =
      last_byte zero i v result rest b (omega arith) h fits s
  get_loop-groups (suc k) i v result rest b hv h fits s = elim (dec_lt v 128) [
    | yes small ↦ last_byte (suc k) i v result rest b small h fits (rw (lt→ltb v 128 small) at s)
    | no large ↦ rw (sum_split) (
        inner_byte (suc k) i (v % 128) result _ (groups k (v / 128)) rest b (omega arith) h
          (omega (arith, split_group v i)) (rw (le→ltb v 128 (omega arith)) at s)
          (λ b' s'.
            get_loop-groups k (i + 7) (v / 128) (result + v % 128 * 2 ^ i) rest b'
              (omega (arith, pow-suc 128 (suc k)))
              (omega (arith, shift_seven i, group_bound (v % 128) (2 ^ i) (omega arith)))
              (omega (arith, split_group v i)) s'))
  ]
    where
      sum_split : result + v * 2 ^ i ≡ result + v % 128 * 2 ^ i + v / 128 * 2 ^ (i + 7)
      sum_split = omega (arith, split_group v i)
