-- ===== src/ByteArray/Chain.antt =====
-- The loops over the node list against one flat array: `write_loop` overwrites a range of it,
-- `read_loop` copies a range out of it, and both count the block steps.
use xupeng.Prelude.{
  ℕ, zero, suc, ◌+◌, ◌-◌, ◌*◌, ◌≤◌, ◌<◌, ◌≡◌, refl, sym, ap, ◌∙◌, some, List, [], ◌∷◌, ◌++◌, gt→==,
  le→leb, lt→leb, if◌then◌else◌, ◌==◌, append-nil, append_assoc, length, take, drop, length-append,
  length-take, length-drop, All, ◌==◌, if◌then◌else◌, arith,
}
use xupeng.Prelude.Slices.{
  take-append-drop, take-all, drop-all, take-append_le, drop-append_le, take-append_add,
  drop-append_add,
}
use xupeng.Prelude.Words.{word_sub_le}
use native.Mathlib.Decide.{dec_le}
use xupeng.ByteArray.{Node, blit, write_loop, read_loop, seek}

-- The bytes of a chain of nodes, as one array.
abbrev pub flat : List Node → List ℕ
flat [] = []
flat (node ∷ rest) = node ++ flat rest

-- The array with the bytes `buf` in place from index `p` on.
abbrev pub overwrite : List ℕ → ℕ → List ℕ → List ℕ
overwrite xs p buf = take p xs ++ (buf ++ drop (p + length buf) xs)

abbrev pub Blocks : ℕ → List Node → Type 0
Blocks m = All (λ (node : Node). length node ≡ m)

pub length-flat :
    (m : ℕ) (nodes : List Node) → Blocks m nodes → length (flat nodes) ≡ length nodes * m
length-flat m [] h = omega arith
length-flat m (node ∷ rest) h =
    omega (arith, length-append node (flat rest), length-flat m rest h.1)

pub flat-append : (xs ys : List Node) → flat (xs ++ ys) ≡ flat xs ++ flat ys
flat-append [] ys = refl
flat-append (node ∷ xs) ys = rw (flat-append xs ys) (sym (append_assoc node (flat xs) (flat ys)))

pub flat-take :
    (m c k : ℕ) (nodes : List Node)
    → Blocks m nodes
    → k ≡ c * m
    → flat (take c nodes) ≡ take k (flat nodes)
flat-take m zero k nodes h e = let e' : k ≡ 0 = omega arith in rw e' refl
flat-take m (suc c) zero [] h e = refl
flat-take m (suc c) (suc k) [] h e = refl
flat-take m (suc c) k (node ∷ rest) h e =
    rw (
      take-append_add k (c * m) node (flat rest) (omega arith),
      flat-take m c (c * m) rest h.1 refl,
    )

pub flat-drop :
    (m c k : ℕ) (nodes : List Node)
    → Blocks m nodes
    → k ≡ c * m
    → flat (drop c nodes) ≡ drop k (flat nodes)
flat-drop m zero k nodes h e = let e' : k ≡ 0 = omega arith in rw e' refl
flat-drop m (suc c) zero [] h e = refl
flat-drop m (suc c) (suc k) [] h e = refl
flat-drop m (suc c) k (node ∷ rest) h e =
    rw (
      drop-append_add k (c * m) node (flat rest) (omega arith),
      flat-drop m c (c * m) rest h.1 refl,
    )

pub length-blit :
    (node : Node) (p : ℕ) (bs : List ℕ)
    → p + length bs ≤ length node
    → length (blit node p bs) ≡ length node
length-blit node p bs h = omega (
  arith,
  length-append (take p node) (bs ++ drop (p + length bs) node),
  length-append bs (drop (p + length bs) node),
  length-take p node,
  length-drop (p + length bs) node,
)

-- A write that fits the first node.
overwrite_fits :
    (node : Node) (xs buf : List ℕ) (p : ℕ)
    → p + length buf ≤ length node
    → blit node p buf ++ xs ≡ overwrite (node ++ xs) p buf
overwrite_fits node xs buf p h = rw (
  take-append_le p node xs (omega arith),
  drop-append_le (p + length buf) node xs h,
  append_assoc,
  append_assoc,
)

-- A write that fills the first node from `p` on and goes on at the start of the others.
overwrite_spills :
    (node : Node) (xs buf : List ℕ) (p n : ℕ)
    → p + n ≡ length node
    → n ≤ length buf
    → blit node p (take n buf) ++ overwrite xs 0 (drop n buf) ≡ overwrite (node ++ xs) p buf
overwrite_spills node xs buf p n e h =
    let full : drop (p + length (take n buf)) node ≡ [] =
      drop-all _ node (omega (arith, length-take n buf)) in
    rw (
      full,
      append-nil,
      append_assoc,
      take-append_le p node xs (omega arith),
      drop-append_add (p + length buf) (0 + length (drop n buf)) node xs
          (omega (arith, length-drop n buf)),
      ← append_assoc (take n buf) (drop n buf),
      take-append-drop n buf,
    )

-- What a run of `write_loop` gives: the same chain with the range overwritten, and the block
-- steps `k`, after which the offset is `r`.
pub record Wrote (m npos : ℕ) (nodes : List Node) (buf : List ℕ) : Type 0 where
  pub after : List Node
  pub k : ℕ
  pub r : ℕ
  pub runs : write_loop nodes npos buf ≡ some (after, k)
  pub bytes : flat after ≡ overwrite (flat nodes) npos buf
  pub blocks : Blocks m after
  pub count : length after ≡ length nodes
  pub steps : npos + length buf ≡ k * m + r
  pub offset : r < m

-- A round of `write_loop` that goes on in the next node.
Wrote-spills :
    (m npos : ℕ) (node : Node) (rest : List Node) (buf : List ℕ)
    → length node ≡ m
    → npos < m
    → length node - npos < length buf
    → Wrote m 0 rest (drop (length node - npos) buf)
    → Wrote m npos (node ∷ rest) buf
unfolding write_loop
Wrote-spills m npos node rest buf h lt over more = record {
  after = blit node npos (take n buf) ∷ more.after;
  k = suc more.k;
  r = more.r;
  runs = rw (word_sub_le (length node) npos (omega arith), lt→leb _ _ over, more.runs);
  bytes =
      ap (λ (xs : List ℕ). blit node npos (take n buf) ++ xs) more.bytes
      ∙ overwrite_spills node (flat rest) buf npos n (omega arith) (omega arith);
  blocks = (length-blit node npos (take n buf) (omega (arith, length-take n buf)) ∙ h, more.blocks);
  count = ap suc more.count;
  steps = omega (arith, more.steps, length-drop n buf);
  offset = more.offset;
}
  where
    n : ℕ
    n = length node - npos

-- The last round.
Wrote-fits :
    (m npos : ℕ) (node : Node) (rest : List Node) (buf : List ℕ)
    → Blocks m (node ∷ rest)
    → npos < m
    → 0 < length buf
    → length buf ≤ length node - npos
    → Wrote m npos (node ∷ rest) buf
unfolding write_loop
Wrote-fits m npos node rest buf h lt pos fits = record {
  after = blit node npos buf ∷ rest;
  k = if length node == npos + length buf then 1 else 0;
  r = if length node == npos + length buf then 0 else npos + length buf;
  runs = rw (word_sub_le (length node) npos (omega arith), le→leb _ _ fits);
  bytes = overwrite_fits node (flat rest) buf npos (omega arith);
  blocks = (length-blit node npos buf (omega arith) ∙ h.0, h.1);
  count = refl;
  steps = ground arith;
  offset = ground arith;
}

-- A write into a chain with room for it ends, with every byte in its place.
pub write_loop-Wrote :
    (m npos : ℕ) (nodes : List Node) (buf : List ℕ)
    → Blocks m nodes
    → npos < m
    → 0 < length buf
    → npos + length buf ≤ length (flat nodes)
    → Wrote m npos nodes buf
write_loop-Wrote m npos [] buf h lt pos fit = absurd (omega arith)
write_loop-Wrote m npos (node ∷ rest) buf h lt pos fit =
    elim (dec_le (length buf) (length node - npos)) [
      | yes fits ↦ Wrote-fits m npos node rest buf h lt pos fits
      | no over ↦ Wrote-spills m npos node rest buf h.0 lt (omega arith) (
          write_loop-Wrote m 0 rest (drop (length node - npos) buf) h.1 (omega arith)
            (omega (arith, length-drop (length node - npos) buf))
            (omega (arith, length-drop (length node - npos) buf, length-append node (flat rest))))
    ]

-- What a run of `read_loop` gives: the range, and the block steps.
pub record Took (m npos n : ℕ) (nodes : List Node) : Type 0 where
  pub k : ℕ
  pub r : ℕ
  pub runs : read_loop nodes npos n ≡ some (take n (drop npos (flat nodes)), k)
  pub steps : npos + n ≡ k * m + r
  pub offset : r < m

pub read_spills :
    (node : Node) (xs : List ℕ) (p n k : ℕ)
    → p + k ≡ length node
    → k ≤ n
    → take k (drop p node) ++ take (n - k) (drop 0 xs) ≡ take n (drop p (node ++ xs))
read_spills node xs p n k e h = rw (
  drop-append_le p node xs (omega arith),
  take-append_add n (n - k) (drop p node) xs (omega (arith, length-drop p node)),
  take-all k (drop p node) (omega (arith, length-drop p node)),
)

Took-spills :
    (m npos n : ℕ) (node : Node) (rest : List Node)
    → length node ≡ m
    → npos < m
    → length node - npos < n
    → Took m 0 (n - (length node - npos)) rest
    → Took m npos n (node ∷ rest)
unfolding read_loop
Took-spills m npos n node rest h lt over more = record {
  k = suc more.k;
  r = more.r;
  runs = rw (
    word_sub_le (length node) npos (omega arith),
    gt→== n 0 (omega arith),
    lt→leb _ _ over,
    more.runs,
    read_spills node (flat rest) npos n (length node - npos) (omega arith) (omega arith),
  );
  steps = omega (arith, more.steps);
  offset = more.offset;
}

Took-fits :
    (m npos n : ℕ) (node : Node) (rest : List Node)
    → length node ≡ m
    → npos < m
    → 0 < n
    → n ≤ length node - npos
    → Took m npos n (node ∷ rest)
unfolding read_loop
Took-fits m npos n node rest h lt pos fits = record {
  k = if length node == npos + n then 1 else 0;
  r = if length node == npos + n then 0 else npos + n;
  runs = rw (
    word_sub_le (length node) npos (omega arith),
    gt→== n 0 pos,
    le→leb _ _ fits,
    drop-append_le npos node (flat rest) (omega arith),
    take-append_le n (drop npos node) (flat rest) (omega (arith, length-drop npos node)),
  );
  steps = ground arith;
  offset = ground arith;
}

flat_left : (xs : List Node) → 0 < length (flat xs) → 0 < length xs
flat_left [] q = q
flat_left (x ∷ xs) q = omega arith

-- A read of a range that the chain holds ends, with the bytes of the range.
pub read_loop-Took :
    (m npos n : ℕ) (nodes : List Node)
    → Blocks m nodes
    → npos < m
    → npos + n ≤ length (flat nodes)
    → 0 < length nodes
    → Took m npos n nodes
read_loop-Took m npos n [] h lt fit pos = absurd (omega arith)
read_loop-Took m npos zero (node ∷ rest) h lt fit pos = record {
  k = 0;
  r = npos;
  runs = unfold read_loop in refl;
  steps = omega arith;
  offset = lt;
}
read_loop-Took m npos (suc n) (node ∷ rest) h lt fit pos =
    elim (dec_le (suc n) (length node - npos)) [
      | yes fits ↦ Took-fits m npos (suc n) node rest h.0 lt (omega arith) fits
      | no over ↦ Took-spills m npos (suc n) node rest h.0 lt (omega arith) (
          read_loop-Took m 0 (suc n - (length node - npos)) rest h.1 (omega arith)
            (omega (arith, length-append node (flat rest)))
            (flat_left rest (omega (arith, length-append node (flat rest)))))
    ]

-- `seek` finds the block of a position: one past the last if it is the end.
pub seek-eq :
    (m v c r : ℕ) (nodes : List Node)
    → Blocks m nodes
    → 0 < m
    → 0 < length nodes
    → v ≡ c * m + r
    → r < m
    → v ≤ length nodes * m
    → seek nodes v ≡ some c
unfolding seek
seek-eq m v c r [] h p q e lt fit = absurd (omega arith)
seek-eq m v zero r (node ∷ rest) h p q e lt fit = ground arith
seek-eq m v (suc zero) r (node ∷ []) h p q e lt fit = ground arith
seek-eq m v (suc (suc c)) r (node ∷ []) h p q e lt fit = absurd (grind arith)
seek-eq m v (suc c) r (node ∷ (next ∷ rest)) h p q e lt fit =
    ground (arith, seek-eq m (v - length node) c r (next ∷ rest) h.1 p)
