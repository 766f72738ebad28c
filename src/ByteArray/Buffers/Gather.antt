-- ===== src/ByteArray/Buffers/Gather.antt =====
-- The loop over the chain, against the flat array: the `iovec`s describe the range in order.
use xupeng.Prelude.{
  ℕ, suc, ◌+◌, ◌-◌, ◌≤◌, ◌<◌, ◌≡◌, refl, Option, none, some, List, [], ◌∷◌, ◌++◌, append-nil,
  get_elem?, append_assoc, length, take, drop, length-append, length-drop, le→leb, lt→leb, gt→==,
  arith,
}
use xupeng.Prelude.Slices.{take-append_le, drop-append_le}
use xupeng.Prelude.Words.{word_sub_le}
use xupeng.ByteArray.{Node}
use xupeng.ByteArray.Chain.{flat, Blocks, read_spills}
use native.Mathlib.Decide.{dec_le}
use xupeng.ByteArray.Buffers.{Iovec, iovecs}

-- The bytes that a list of `iovec`s describes.
abbrev pub bytes_at : Option Node → Iovec → List ℕ
bytes_at none v = []
bytes_at (some node) v = take v.len (drop v.offset node)

abbrev pub gather : List Node → List Iovec → List ℕ
gather nodes [] = []
gather nodes (v ∷ vs) = bytes_at (get_elem? nodes v.block) v ++ gather nodes vs

get_elem?-append :
    (pre rest : List Node) (node : Node) → get_elem? (pre ++ node ∷ rest) (length pre) ≡ some node
get_elem?-append [] rest node = refl
get_elem?-append (x ∷ pre) rest node = get_elem?-append pre rest node

abbrev pub Gathers : List Node → List Node → ℕ → ℕ → ℕ → Type 0
Gathers all nodes block npos len =
    (vs : List Iovec) × (iovecs nodes block npos len ≡ some vs)
    × (gather all vs ≡ take len (drop npos (flat nodes)))

gather_last :
    (pre rest : List Node) (node : Node) (npos len : ℕ)
    → npos ≤ length node
    → 0 < len
    → len ≤ length node - npos
    → Gathers (pre ++ node ∷ rest) (node ∷ rest) (length pre) npos len
unfolding iovecs
gather_last pre rest node npos len h some_len fits = (
  record { block = length pre; offset = npos; len = len } ∷ [],
  rw (word_sub_le (length node) npos h, gt→== len 0 some_len, le→leb _ _ fits),
  rw (get_elem?-append pre rest node, append-nil)
      (rw (
        drop-append_le npos node (flat rest) h,
        take-append_le len (drop npos node) (flat rest) (omega (arith, length-drop npos node)),
      )),
)

gather_more :
    (pre rest : List Node) (node : Node) (npos len : ℕ)
    → npos ≤ length node
    → length node - npos < len
    → Gathers (pre ++ node ∷ rest) rest (suc (length pre)) 0 (len - (length node - npos))
    → Gathers (pre ++ node ∷ rest) (node ∷ rest) (length pre) npos len
unfolding iovecs
gather_more pre rest node npos len h over (vs, runs, bytes) = (
  record { block = length pre; offset = npos; len = length node - npos } ∷ vs,
  rw (word_sub_le (length node) npos h, gt→== len 0 (omega arith), lt→leb _ _ over, runs),
  rw (get_elem?-append pre rest node, bytes)
      (read_spills node (flat rest) npos len (length node - npos) (omega arith) (omega arith)),
)

gather_node :
    (m npos len : ℕ) (pre rest : List Node) (node : Node)
    → length node ≡ m
    → npos < m
    → 0 < len
    → npos + len ≤ length (node ++ flat rest)
    → (0 < len - (length node - npos)
        → Gathers (pre ++ node ∷ rest) rest (suc (length pre)) 0 (len - (length node - npos)))
    → Gathers (pre ++ node ∷ rest) (node ∷ rest) (length pre) npos len
gather_node m npos len pre rest node h lt some_len fit more =
    elim (dec_le len (length node - npos)) [
      | yes fits ↦ gather_last pre rest node npos len (omega arith) some_len fits
      | no over ↦
          gather_more pre rest node npos len (omega arith) (omega arith) (more (omega arith))
    ]

-- A range that the chain holds is described byte by byte.
pub iovecs-Gathers :
    (m npos len : ℕ) (pre nodes : List Node)
    → Blocks m nodes
    → npos < m
    → 0 < len
    → npos + len ≤ length (flat nodes)
    → Gathers (pre ++ nodes) nodes (length pre) npos len
iovecs-Gathers m npos len pre [] h lt some_len fit = absurd (omega arith)
iovecs-Gathers m npos len pre (node ∷ rest) h lt some_len fit =
    gather_node m npos len pre rest node h.0 lt some_len fit (λ left.
      moved_on (append_assoc pre (node ∷ []) rest) (omega (arith, length-append pre (node ∷ []))) (
        iovecs-Gathers m 0 (len - (length node - npos)) (pre ++ node ∷ []) rest h.1 (omega arith)
          left (omega (arith, length-append node (flat rest)))))
  where
    moved_on :
        {all : List Node} {block : ℕ}
        → all ≡ pre ++ node ∷ rest
        → block ≡ suc (length pre)
        → Gathers all rest block 0 (len - (length node - npos))
        → Gathers (pre ++ node ∷ rest) rest (suc (length pre)) 0 (len - (length node - npos))
    moved_on e e' g = rw (e, e') at g
