-- ===== src/Page/Insert/Tidy.antt =====
-- A page without deleted slots stays without them when records are inserted.
use cs_lab.Base.{
  ℕ, zero, suc, ◌+◌, ◌≤◌, ◌<◌, ◌≡◌, ◌≢◌, ◌∙◌, sym, refl, arith, ltb, none, Bool-cases, inl, inr,
  ltb→lt, lt→ltb, ne→==, ap, ltb→ge,
}
use native.Mathlib.Decide.{ℕ_discrete}
use cs_lab.Memory.{Mem}
use cs_lab.Page.{
  slot_count, record_length, find_reusable, insert_record, needed_space, current_free, place_record,
}
use cs_lab.Page.Layout.{IsValid, IsTidy}
use cs_lab.Page.Place.{Placed}
use cs_lab.Page.Insert.{prepare, prepare-Prepared, placed, insert_record_lem}
use cs_lab.Page.Insert.Slot.{reusable}
use cs_lab.Page.Insert.Outcome.{insert_record-IsCompactable}

find_reusable-all_live :
    (p : Mem) (n i : ℕ)
    → ((j : ℕ) → i ≤ j → j < i + n → record_length p j ≢ 0)
    → find_reusable p n i ≡ none
unfolding find_reusable
find_reusable-all_live p zero i live = refl
find_reusable-all_live p (suc n) i live =
    rw (ne→== (record_length p i) 0 (live i (omega arith) (omega arith)))
      (find_reusable-all_live p n (i + 1) (λ j le l. live j (omega arith) (omega arith)))

pub reusable-IsTidy : (p : Mem) → IsTidy p → reusable p ≡ none
reusable-IsTidy p tidy =
    find_reusable-all_live p (slot_count p) 0 (λ j le l. tidy.1 j (omega arith))

Placed-all_live :
    (p q source : Mem) (len i : ℕ)
    → Placed p q source len i
    → len ≢ 0
    → ((j : ℕ) → j < slot_count p → record_length p j ≢ 0)
    → (j : ℕ) → j < slot_count q
    → record_length q j ≢ 0
Placed-all_live p q source len i put some_length live j l = elim (ℕ_discrete j i) [
  | yes e ↦ λ z. some_length (sym put.own_length ∙ ap (record_length q) (sym e) ∙ z)
  | no ne ↦
      let l' = ltb→lt j (slot_count p) (sym (put.same_slots j ne) ∙ lt→ltb j (slot_count q) l) in
      λ z. live j l' (sym (put.other_length j l' ne) ∙ z)
]

pub insert_record-IsTidy :
    (p source : Mem) (len : ℕ)
    → IsValid p
    → len ≢ 0
    → IsTidy p
    → IsTidy (insert_record p source len).1
insert_record-IsTidy p source len v some_length tidy =
    let need = needed_space len (reusable p) in
    let q = prepare p need in
    let d = prepare-Prepared p need v in
    let live' : (i : ℕ) → i < slot_count q → record_length q i ≢ 0 = λ i l z.
      let l' : i < slot_count p = omega (arith, d.count) in
      tidy.1 i l' (sym (d.lengths i l') ∙ z) in
    (
      insert_record-IsCompactable p source len v (reusable-IsTidy p tidy) tidy.0,
      rw insert_record_lem (elim (Bool-cases (ltb (current_free (prepare p need)) need)) [
        | inl full ↦ rw full (λ i l. live' i (omega (arith, l)))
        | inr room ↦ rw room (
            Placed-all_live q (place_record q source len (reusable p)).1 source len
              (place_record q source len (reusable p)).0
              ((placed p source len v (ltb→ge (current_free q) need room)).0) some_length live')
      ]),
    )
