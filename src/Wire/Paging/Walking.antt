-- ===== src/Wire/Paging/Walking.antt =====
-- The walk over all pages: its bounds, and the items that it gathers.
use peer_application_runtime.Base.{
  ℕ, ◌≤◌, List, [], ◌∷◌, ◌++◌, Bool, true, false, Option, ◌≡◌, ◌≢◌, inl, inr, if-both, refl, sym,
  ap, subst, ◌∙◌, arith, length, length-append, append_assoc, append-nil, if◌then◌else◌,
}
use peer_application_runtime.Base.Bytes.{Bytes, distinct}
use peer_application_runtime.Wire.Error.{Result, ok, raised, ◌>>=◌, on_bind, Result-cases, Code}
use peer_application_runtime.Wire.Value.{Value}
use peer_application_runtime.Wire.Paging.{
  Walk, Coverage, incomplete, peer_snapshot_complete, invalidated, ids, start, take_page, settle,
  is_wire_error, append_page, append_at, append, append_all,
}
use peer_application_runtime.Wire.Paging.Items.{set_items-fresh, distinct-append, ids-append}
use peer_application_runtime.Wire.Paging.Taken.{Taken, rows_of, check_page_ok}

-- The ids are distinct, the budgets hold, and an invalidated walk has no items.
pub record IsWalk (w : Walk) : Type 0 where
  pub unique : distinct (ids w.items) ≡ true
  pub items : length w.items ≤ w.max_items
  pub pages : w.pages ≤ w.max_pages
  pub bytes : w.bytes ≤ w.max_bytes
  pub cleared : w.state ≡ invalidated → w.items ≡ []

pub start-IsWalk :
    (space token : Bytes) (max_items max_pages max_bytes : ℕ)
    → IsWalk (start space token max_items max_pages max_bytes)
unfolding start distinct
start-IsWalk s t i p b = record {
  unique = refl;
  items = omega arith;
  pages = omega arith;
  bytes = omega arith;
  cleared = λ e. refl;
}

Taken-items :
    (page : Value) (requested : Option Bytes) (w w' : Walk) (t : Taken page requested w w')
    → w'.items ≡ w.items ++ t.rows
unfolding take_page
Taken-items page requested w w' t =
    ap (λ x. x.items) t.result ∙ set_items-fresh t.rows w.items t.apart t.fresh

never :
    (done : Bool) (s : Coverage)
    → s ≡ incomplete
    → (if done then peer_snapshot_complete else s) ≢ invalidated
never true s e h = cc
never false s e h = cc

Taken-IsWalk :
    (page : Value) (requested : Option Bytes) (w w' : Walk)
    → w.state ≡ incomplete
    → IsWalk w
    → Taken page requested w w'
    → IsWalk w'
unfolding take_page
Taken-IsWalk page requested w w' begun i t =
    subst IsWalk (sym t.result)
      (taken (ap (λ x. x.items) (sym t.result) ∙ Taken-items page requested w w' t))
  where
    taken :
        (take_page t.rows t.next t.done t.size w).items ≡ w.items ++ t.rows
        → IsWalk (take_page t.rows t.next t.done t.size w)
    taken e = record {
      unique =
          subst (λ l. distinct (ids l) ≡ true) (sym e)
            (subst (λ l. distinct l ≡ true) (sym (ids-append w.items t.rows))
              (distinct-append (ids w.items) (ids t.rows) i.unique t.apart t.fresh));
      items = omega (arith, ap length e, length-append w.items t.rows, t.items);
      pages = t.pages;
      bytes = t.bytes;
      cleared = λ h. absurd (never t.done w.state begun h);
    }

module _ (validate : Value → Result (Unit {0})) where
  append_page_ok :
      (page : Value) (requested : Option Bytes) (w w' : Walk)
      → append_page validate page requested w ≡ ok w'
      → Taken page requested w w'
  unfolding append_page
  append_page_ok page requested w w' e =
      on_bind (validate page) e (λ _ _ e'. check_page_ok page requested w w' e')

  settle-IsWalk : (w : Walk) (c : Code) → IsWalk w → IsWalk (settle w (raised c)).0
  unfolding settle distinct
  settle-IsWalk w c i =
      if-both (λ (p : Walk × Result (Unit {0})). IsWalk p.0) (is_wire_error c) _ _
        (λ _. record {
          unique = refl;
          items = omega arith;
          pages = i.pages;
          bytes = i.bytes;
          cleared = λ e. refl;
        })
        (λ _. i)

  settle-refused : (w : Walk) (c : Code) → (settle w (raised c)).1 ≢ ok tt
  unfolding settle
  settle-refused w c =
      if-both (λ (p : Walk × Result (Unit {0})). p.1 ≢ ok tt) (is_wire_error c) _ _ (λ _ e. cc)
        (λ _ e. cc)

  append_at-IsWalk :
      (s : Coverage) (page : Value) (requested : Option Bytes) (w : Walk)
      → w.state ≡ s
      → IsWalk w
      → IsWalk (append_at validate s page requested w).0
  unfolding append_at settle
  append_at-IsWalk incomplete page requested w e i =
      elim (Result-cases (append_page validate page requested w)) [
        | inl (w', a) ↦
            rw a (Taken-IsWalk page requested w w' e i (append_page_ok page requested w w' a))
        | inr (c, r) ↦ rw r (settle-IsWalk w c i)
      ]
  append_at-IsWalk peer_snapshot_complete page requested w e i = i
  append_at-IsWalk invalidated page requested w e i = i

  -- Whatever pages come, with whatever requested cursors, a walk keeps its ids distinct, keeps
  -- within its budgets of items, pages and bytes, and has no items once it is invalidated.
  pub append_all-IsWalk :
      (pages : List (Value × Option Bytes)) (w : Walk)
      → IsWalk w
      → IsWalk (append_all validate pages w)
  unfolding append_all append
  append_all-IsWalk [] w i = i
  append_all-IsWalk ((page, requested) ∷ pages) w i =
      append_all-IsWalk pages _ (append_at-IsWalk w.state page requested w refl i)

  -- Every page of the sequence is accepted.
  unfoldable pub AllAccepted : List (Value × Option Bytes) → Walk → Type 0
  AllAccepted [] w = Unit
  AllAccepted ((page, requested) ∷ pages) w =
      ((append validate page requested w).1 ≡ ok tt)
      × AllAccepted pages (append validate page requested w).0

  -- The rows of all pages, in order.
  unfoldable pub rows_of_all : List (Value × Option Bytes) → Result (List (Bytes × Value))
  rows_of_all [] = ok []
  rows_of_all ((page, requested) ∷ pages) = do
    rows ← rows_of page
    rest ← rows_of_all pages
    ok (rows ++ rest)

  append_at-items :
      (s : Coverage) (page : Value) (requested : Option Bytes) (w : Walk)
      → (append_at validate s page requested w).1 ≡ ok tt
      → (rows : List (Bytes × Value)) × (rows_of page ≡ ok rows)
        × ((append_at validate s page requested w).0.items ≡ w.items ++ rows)
  unfolding append_at settle
  append_at-items incomplete page requested w e =
      elim (Result-cases (append_page validate page requested w)) [
        | inl (w', a) ↦
            let t = append_page_ok page requested w w' a in
            rw a (t.rows, t.read, Taken-items page requested w w' t)
        | inr (c, r) ↦ absurd (settle-refused w c (subst (λ x. (settle w x).1 ≡ ok tt) r e))
      ]
  append_at-items peer_snapshot_complete page requested w e = cc
  append_at-items invalidated page requested w e = cc

  -- If a walk accepts every page of a sequence, the items that it then holds are those that it
  -- held before, and behind them the rows of the pages in the order of the pages: none is lost,
  -- repeated or replaced.
  pub append_all-items :
      (pages : List (Value × Option Bytes)) (w : Walk)
      → AllAccepted pages w
      → (rows : List (Bytes × Value)) × (rows_of_all pages ≡ ok rows)
        × ((append_all validate pages w).items ≡ w.items ++ rows)
  unfolding AllAccepted append_all rows_of_all append
  append_all-items [] w h = ([], refl, sym (append-nil w.items))
  append_all-items ((page, requested) ∷ pages) w h =
      let (rows, read, here) = append_at-items w.state page requested w h.0 in
      let (rest, read', there) = append_all-items pages _ h.1 in
      (
        rows ++ rest,
        rw (read, read') refl,
        there ∙ ap (λ l. l ++ rest) here ∙ append_assoc w.items rows rest,
      )
