-- ===== src/Wire/Paging/Items.antt =====
-- The dict of items: rows with fresh, distinct ids go to its end, in order.
use peer_application_runtime.Base.{
  List, [], ◌∷◌, ◌++◌, true, false, ◌≡◌, refl, sym, ap, ◌∙◌, arith, Bool-cases, append_assoc,
  append-nil, inl, inr,
}
use peer_application_runtime.Base.Bytes.{Bytes, bytes_eq, bytes_eq_iff, contains, distinct}
use peer_application_runtime.Wire.Value.{Value}
use peer_application_runtime.Wire.Paging.{ids, any_held, set_item, set_items}

bytes_eq_sym : (b c : Bytes) → bytes_eq b c ≡ false → bytes_eq c b ≡ false
bytes_eq_sym b c h = elim (Bool-cases (bytes_eq c b)) [
  | inl e ↦ absurd (ground (arith, (bytes_eq_iff b c).1 (sym ((bytes_eq_iff c b).0 e))))
  | inr e ↦ e
]

contains-append :
    (b : Bytes) (bs : List Bytes) (c : Bytes)
    → contains b bs ≡ false
    → bytes_eq c b ≡ false
    → contains b (bs ++ c ∷ []) ≡ false
unfolding contains
contains-append b [] c h k = ground arith
contains-append b (d ∷ bs) c h k = ground (arith, contains-append b bs c)

any_held-append :
    (held : List Bytes) (c : Bytes) (bs : List Bytes)
    → any_held held bs ≡ false
    → contains c bs ≡ false
    → any_held (held ++ c ∷ []) bs ≡ false
unfolding any_held contains
any_held-append held c [] h k = refl
any_held-append held c (b ∷ bs) h k =
    ground (arith, any_held-append held c bs, contains-append b held c, bytes_eq_sym b c)

pub ids-append : (items rows : List (Bytes × Value)) → ids (items ++ rows) ≡ ids items ++ ids rows
ids-append [] rows = refl
ids-append (i ∷ items) rows = ap (λ l. i.0 ∷ l) (ids-append items rows)

set_item-fresh :
    (id : Bytes) (row : Value) (items : List (Bytes × Value))
    → contains id (ids items) ≡ false
    → set_item id row items ≡ items ++ (id, row) ∷ []
unfolding set_item contains
set_item-fresh id row [] h = refl
set_item-fresh id row ((j, v) ∷ items) h = ground (arith, set_item-fresh id row items)

pub set_items-fresh :
    (rows items : List (Bytes × Value))
    → distinct (ids rows) ≡ true
    → any_held (ids items) (ids rows) ≡ false
    → set_items rows items ≡ items ++ rows
unfolding set_items distinct any_held
set_items-fresh [] items d h = sym (append-nil items)
set_items-fresh ((id, row) ∷ rows) items d h =
    let new : contains id (ids items) ≡ false = ground arith in
    let apart : contains id (ids rows) ≡ false = ground arith in
    let held : any_held (ids items) (ids rows) ≡ false = ground arith in
    ap (set_items rows) (set_item-fresh id row items new)
    ∙ set_items-fresh rows (items ++ (id, row) ∷ []) (ground arith) (
        ap (λ l. any_held l (ids rows)) (ids-append items ((id, row) ∷ []))
        ∙ any_held-append (ids items) id (ids rows) held apart)
    ∙ append_assoc items ((id, row) ∷ []) rows

contains-join :
    (b : Bytes) (bs cs : List Bytes)
    → contains b bs ≡ false
    → contains b cs ≡ false
    → contains b (bs ++ cs) ≡ false
unfolding contains
contains-join b [] cs h k = k
contains-join b (d ∷ bs) cs h k = ground (arith, contains-join b bs cs)

not_held :
    (b : Bytes) (held bs : List Bytes) → any_held (b ∷ held) bs ≡ false → contains b bs ≡ false
unfolding any_held contains
not_held b held [] h = refl
not_held b held (c ∷ bs) h = ground (arith, not_held b held bs, bytes_eq_sym b c)

held_tail :
    (b : Bytes) (held bs : List Bytes) → any_held (b ∷ held) bs ≡ false → any_held held bs ≡ false
unfolding any_held contains
held_tail b held [] h = refl
held_tail b held (c ∷ bs) h = ground (arith, held_tail b held bs)

-- Distinct ids stay distinct.
pub distinct-append :
    (held bs : List Bytes)
    → distinct held ≡ true
    → distinct bs ≡ true
    → any_held held bs ≡ false
    → distinct (held ++ bs) ≡ true
unfolding distinct
distinct-append [] bs d e h = e
distinct-append (b ∷ held) bs d e h = ground (
  arith,
  distinct-append held bs,
  contains-join b held bs,
  not_held b held bs h,
  held_tail b held bs h,
)
