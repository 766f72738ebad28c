-- ===== src/Config/Listeners.antt =====
-- The callbacks of a variable: their keys, and which are called.
use xupeng.Prelude.{
  ℕ, ◌+◌, ◌%◌, ◌^◌, ◌<◌, ◌≡◌, refl, ap, false, some, [], ◌∷◌, ◌++◌, All, All-append, All-map,
  lt→ltb, ne→==, eq→==, arith,
}
use mathlib.Core.List.{map-append}
use xupeng.Config.{
  Values, ConfigVar, Callbacks, put, erase, find, set_value, add_listener, del_listener,
  get_listener,
}

-- Keys that a counter has given out, in order.
abbrev pub Below : ℕ → Callbacks → Type 0
Below n cs = All (λ c. (c.0 < n)) cs

put-Below : (k cb : ℕ) (cs : Callbacks) → Below k cs → put k cb cs ≡ cs ++ ((k, cb) ∷ [])
unfolding put
put-Below k cb [] h = refl
put-Below k cb (c ∷ cs) h = rw (lt→ltb c.0 k h.0) (ap (λ t. c ∷ t) (put-Below k cb cs h.1))

find-Below : (k cb : ℕ) (cs : Callbacks) → Below k cs → find k (cs ++ ((k, cb) ∷ [])) ≡ some cb
unfolding find
find-Below k cb [] h = rw (eq→== k k refl) refl
find-Below k cb (c ∷ cs) h = rw (ne→== c.0 k (λ e. omega (arith, e, h.0))) (find-Below k cb cs h.1)

erase-Below : (k cb : ℕ) (cs : Callbacks) → Below k cs → erase k (cs ++ ((k, cb) ∷ [])) ≡ cs
unfolding erase
erase-Below k cb [] h = rw (eq→== k k refl) refl
erase-Below k cb (c ∷ cs) h =
    rw (ne→== c.0 k (λ e. omega (arith, e, h.0))) (ap (λ t. c ∷ t) (erase-Below k cb cs h.1))

-- AddListener gives a key that no callback of the variable has, and keeps this true of the counter and the
-- keys. GetListener finds the callback by its key, the next change calls it, after the others, with the old
-- value and the new, and DelListener leaves the variable as it was before AddListener.
pub add_listener_lem :
    {T : ℕ → Type 0} (types : Values T) (fun_id : ℕ) (v : ConfigVar T) (cb : ℕ) (x : T v.kind)
    → fun_id + 1 < 2 ^ 64
    → Below (fun_id + 1) v.cbs
    → types.equals v.kind x v.val ≡ false
    → let key = (add_listener fun_id v cb).0 in
      let after = (add_listener fun_id v cb).1.1 in
      Below ((add_listener fun_id v cb).1.0 + 1) after.cbs
      × (get_listener after key ≡ some cb)
      × (del_listener after key ≡ v)
      × ((set_value types after x).1
          ≡ (set_value types v x).1
            ++ ((record { callback = cb; of_kind = v.kind; old_value = v.val; new_value = x })
                ∷ []))
unfolding get_listener del_listener set_value
add_listener_lem types fun_id v cb x h below differs =
    let key = fun_id + 1 in
    let small : key % 2 ^ 64 ≡ key = omega (arith, h) in
    rw
      (
        small,
        put-Below key cb v.cbs below,
        find-Below key cb v.cbs below,
        erase-Below key cb v.cbs below,
        differs,
      )
      (
        All-append (λ (c : ℕ × ℕ). c.0 < key + 1) v.cbs ((key, cb) ∷ [])
            (All-map v.cbs (λ c (b : c.0 < key). omega arith) below) (omega arith, tt),
        refl,
        refl,
        map-append _ v.cbs ((key, cb) ∷ []),
      )
