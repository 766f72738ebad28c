-- ===== src/Address/Order/Comparing.antt =====
-- The comparisons of addresses are the lexicographic order of their bytes, and so a total order that agrees
-- with `==`.
use xupeng.Prelude.{
  ℕ, ◌≤◌, ◌≡◌, ◌≢◌, ◌↔◌, ◌⊎◌, inl, inr, refl, sym, ap, ◌∙◌, Bool, true, not, length, length-take,
  take, ◌==◌, Bool-cases, arith,
}
use xupeng.Prelude.Outcome.{ok}
use xupeng.ByteArray.{Endian}
use xupeng.Address.{Address, get_addr, get_addr_len}
use xupeng.Address.Order.{is_same, less, equal, unequal, view}
use xupeng.Address.Order.Lexical.{
  Precedes, lex, is_below, less_outcome, memcmp-less, memcmp-same, lex-Says, Precedes-lex,
  Says-below, Says-same, same-lex, lex-unlike, lex-total,
}

-- `m_length` is within the object, as every constructor makes it; setAddrLen takes any length.
abbrev pub Whole : Endian → Address → Type 0
Whole host a = get_addr_len a ≤ length (get_addr host a)

module _ (host : Endian) (a b : Address) (ha : Whole host a) (hb : Whole host b) where
  less-lex : less host a b ≡ ok (is_below (lex (view host a) (view host b)))
  unfolding less less_outcome
  less-lex = memcmp-less (get_addr_len a) (get_addr_len b) (get_addr host a) (get_addr host b) ha hb

  -- The operator `<` of two addresses whose lengths (`m_length` of a Unix address) lie within their
  -- objects has a value, and it is true exactly when the bytes of the first come before those of the
  -- second in lexicographic order, a prefix first. A length set by setAddrLen or by the system may be
  -- longer than the object; then memcmp may read past it, and nothing is stated.
  pub less_lem :
      (r : Bool) × (less host a b ≡ ok r) × ((r ≡ true) ↔ Precedes (view host a) (view host b))
  less_lem = (
    is_below (lex (view host a) (view host b)),
    less-lex,
    (
      λ e.
          Says-below (lex (view host a) (view host b)) (view host a) (view host b)
            (lex-Says (view host a) (view host b)) e,
      λ p. ap is_below (Precedes-lex (view host a) (view host b) p),
    ),
  )

  length-view : (c : Address) → Whole host c → length (view host c) ≡ get_addr_len c
  length-view c h = omega (arith, length-take (get_addr_len c) (get_addr host c))

  equal-lex : equal host a b ≡ ok (is_same (lex (view host a) (view host b)))
  unfolding equal
  equal-lex = elim (Bool-cases (get_addr_len a == get_addr_len b)) [
    | inl e ↦
        let n : get_addr_len a ≡ get_addr_len b = ground (arith, e) in
        let bytes =
          memcmp-same (get_addr_len a) (get_addr host a) (get_addr host b) ha
            (omega (arith, n, hb)) in
        let viewed : take (get_addr_len a) (get_addr host b) ≡ view host b =
          ap (λ (t : ℕ). take t (get_addr host b)) n in
        rw (e, bytes, viewed) refl
    | inr e ↦
        let differ : length (view host a) ≢ length (view host b) =
          λ q. ground (arith, e, q, length-view a ha, length-view b hb) in
        rw e (ap ok (sym (lex-unlike (view host a) (view host b) differ)))
  ]

  -- The operators `==` and `!=` of two addresses whose lengths lie within their objects have values, opposite ones, and `==` is true exactly when
  -- the bytes are the same.
  pub equal_lem :
      (r : Bool) × (equal host a b ≡ ok r)
      × (unequal host a b ≡ ok (not r))
      × ((r ≡ true) ↔ (view host a ≡ view host b))
  unfolding unequal
  equal_lem = (
    is_same (lex (view host a) (view host b)),
    equal-lex,
    rw equal-lex refl,
    (
      λ e.
          Says-same (lex (view host a) (view host b)) (view host a) (view host b)
            (lex-Says (view host a) (view host b)) e,
      λ e. ap is_same (same-lex (view host a) (view host b) e),
    ),
  )

-- Of two addresses whose lengths lie within their objects one is less than the other by `<`, or they are equal by `==`.
pub less-total :
    (host : Endian) (a b : Address)
    → Whole host a
    → Whole host b
    → (equal host a b ≡ ok true) ⊎ (less host a b ≡ ok true) ⊎ (less host b a ≡ ok true)
less-total host a b ha hb = elim (lex-total (view host a) (view host b)) [
  | inl e ↦ inl (equal-lex host a b ha hb ∙ ap (λ c. ok (is_same c)) e)
  | inr (inl p) ↦
      inr (inl (less-lex host a b ha hb ∙ ap (λ c. ok (is_below c)) (Precedes-lex _ _ p)))
  | inr (inr p) ↦
      inr (inr (less-lex host b a hb ha ∙ ap (λ c. ok (is_below c)) (Precedes-lex _ _ p)))
]
