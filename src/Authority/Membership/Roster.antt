-- ===== src/Authority/Membership/Roster.antt =====
-- The members of a verified membership are in ascending order, and there are at most 256.
use peer_application_runtime.Base.{
  suc, ◌+◌, ◌*◌, ◌≤◌, List, [], ◌∷◌, ◌++◌, map, Bool, true, ◌&&◌, ◌||◌, Option, none, some, ◌≡◌,
  refl, ap, subst, ◌∙◌, arith, both, leb, ◌==◌, length,
}
use peer_application_runtime.Base.Bytes.{Bytes, bytes_eq, bytes_eq_iff}
use peer_application_runtime.Base.Fallible.{done, done-injective, after, after_demand}
use peer_application_runtime.Authority.Control.{Services, Member, parse}
use peer_application_runtime.Authority.Membership.{
  Membership, page_entries, max_pages, follows, check_order, is_last, read_pages, verify_membership,
}

-- The devices ascend, the first after the one before, if there is one.
unfoldable pub ascends : Option Bytes → List Member → Bool
ascends previous [] = true
ascends previous (m ∷ ms) = follows previous m.device_id && ascends (some m.device_id) ms

-- No device twice, in order, and no more than four pages hold.
unfoldable pub IsRoster : List Member → Type 0
IsRoster ms = (ascends none ms ≡ true) × (length ms ≤ 256)

check_order-ascends :
    (previous last : Option Bytes) (page more : List Member)
    → check_order previous page ≡ done last
    → ascends last more ≡ true
    → ascends previous (page ++ more) ≡ true
unfolding check_order ascends
check_order-ascends previous last [] more e h = ap (λ o. ascends o more) (done-injective e) ∙ h
check_order-ascends previous last (m ∷ ms) more e0 h =
    after_demand (follows previous m.device_id) _ e0 (λ next e.
      ap (λ b. b && ascends (some m.device_id) (ms ++ more)) next
      ∙ check_order-ascends (some m.device_id) last ms more e h)

length-append : {A : Type 0} (xs ys : List A) → length (xs ++ ys) ≡ length xs + length ys
length-append [] ys = omega arith
length-append (x ∷ xs) ys = ground (arith, length-append xs ys)

read_pages-ascends :
    (v : Services) (previous : Option Bytes) (pages : List Bytes) (ms : List Member)
    → read_pages v previous pages ≡ done ms
    → (ascends previous ms ≡ true) × (length ms ≤ 64 * length pages)
unfolding read_pages
read_pages-ascends v previous [] ms e =
    subst (λ l. (ascends previous l ≡ true) × (length l ≤ 0)) (done-injective e)
      (unfold ascends in (refl, omega arith))
read_pages-ascends v previous (raw ∷ rest) ms e0 =
    after (parse v.read_page 32768 raw) e0 (λ page _ e1.
      after_demand
        (leb 1 (length page)
          && leb (length page) page_entries
          && (is_last rest || length page == page_entries))
        _ e1
        (λ layout e2. after (check_order previous page) e2 (λ last order e3.
          after (read_pages v last rest) e3 (λ more rest_read e.
            let (up, size) = read_pages-ascends v last rest more rest_read in
            let (bounds, full) = both _ (is_last rest || length page == page_entries) layout in
            let (low, high) = both (leb 1 (length page)) _ bounds in
            let few : length page ≤ 64 = ground arith in
            let sum = length-append page more in
            subst (λ l. (ascends previous l ≡ true) × (length l ≤ 64 * suc (length rest)))
              (done-injective e)
              (check_order-ascends previous last page more order up, omega arith)))))

-- The members of a membership that is verified ascend by device, so that no device is in it twice, are at
-- most 256, and have the root that was expected.
pub verify_membership-IsRoster :
    (v : Services) (expected : Bytes) (pages : List Bytes) (view : Membership)
    → verify_membership v expected pages ≡ done view
    → IsRoster view.members × (view.root ≡ expected)
unfolding verify_membership
verify_membership-IsRoster v expected pages view e0 =
    after_demand (length expected == 32) _ e0 (λ _ e1.
      after_demand (leb (length pages) max_pages) _ e1 (λ few e2.
        after (read_pages v none pages) e2 (λ entries read e3.
          after_demand (bytes_eq (v.root_of (map v.page_id pages)) expected) _ e3 (λ root e.
            let (up, size) = read_pages-ascends v none pages entries read in
            let four : length pages ≤ 4 = ground arith in
            let bound : length entries ≤ 256 = omega arith in
            subst (λ m. IsRoster m.members × (m.root ≡ expected)) (done-injective e)
              (unfold IsRoster in (up, bound), (bytes_eq_iff _ _).0 root)))))
